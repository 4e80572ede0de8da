-- ===== src/Provider/Registry/Refused.antt =====
-- internal/provider/v1/provider.go, `Observe`: why a source of an engine is not ready.
use data_product_controller.Prelude.{
  String, ◌≡◌, ◌⊎◌, Bool, true, false, ◌&&◌, ◌||◌, Option, none, some, ◌==◌, string_eq, refl, inl,
  inr, Bool-cases,
}
use data_product_controller.Api.{EngineSelection, ProvisionedSource}
use data_product_controller.Connector.{Observation}
use data_product_controller.Provider.{selects, unavailable}
use data_product_controller.Provider.Reasons.{is_listed}
use data_product_controller.Provider.Reasons.Relational.{cnpg-listed, hybrid-listed}
use data_product_controller.Provider.Reasons.Document.{percona-listed}
use data_product_controller.Provider.Reasons.Graph.{arango-listed}
use data_product_controller.Provider.Registry.{
  Registry, Provider, crossplane, native_sql, hybrid, native_document, native_graph, select,
  observe_selected, unless_ended, observe_source_of,
}

-- a reason of the registry or of one of its engine providers
abbrev pub Refused : Observation → Type 0
Refused o = (o.reason ≡ "EngineProviderUnsupported") ⊎ (is_listed o.reason ≡ true)

abbrev is_engine : Option Provider → Bool
is_engine (some crossplane) = false
is_engine _ = true

select-engine :
    (e : EngineSelection) (adapter : String) → is_engine (select (some e) adapter) ≡ true
unfolding select
select-engine e adapter =
    elim (Bool-cases (selects (some e) "sql" "native" && adapter == "cnpg/v1")) [
      | inl a ↦ rw a refl
      | inr a ↦
          elim (Bool-cases (
            (selects (some e) "document" "cnpg-hybrid" || selects (some e) "graph" "cnpg-hybrid")
            && adapter == "cnpg-hybrid/v1")) [
              | inl b ↦ rw (a, b) refl
              | inr b ↦
                  elim (Bool-cases
                    (selects (some e) "document" "native" && adapter == "percona-mongodb/v1")) [
                      | inl c ↦ rw (a, b, c) refl
                      | inr c ↦
                          elim (Bool-cases
                            (selects (some e) "graph" "native" && adapter == "arangodb/v1")) [
                              | inl d ↦ rw (a, b, c, d) refl
                              | inr d ↦ rw (a, b, c, d) refl
                            ]
                    ]
            ]
    ]

module _ {Time Entry : Type 0} (r : Registry Time Entry) (ended : Bool) (namespace : String)
    (s : ProvisionedSource) where
  selected-Refused :
      (ended : Bool) (o : Option Provider)
      → is_engine o ≡ true
      → (unless_ended ended o (observe_selected r namespace s o)).ready ≡ false
      → Refused (unless_ended ended o (observe_selected r namespace s o))
  unfolding unless_ended observe_selected unavailable
  selected-Refused ended none engine h = inl refl
  selected-Refused true (some p) engine h = inr refl
  selected-Refused false (some crossplane) engine h = cc
  selected-Refused false (some native_sql) engine h =
      inr (cnpg-listed r.parse_group_version r.reader namespace s h)
  selected-Refused false (some hybrid) engine h = inr (hybrid-listed r.reader namespace s h)
  selected-Refused false (some native_document) engine h =
      inr (percona-listed r.reader namespace s h)
  selected-Refused false (some native_graph) engine h =
      inr (arango-listed r.codec r.api r.reader namespace s h)

  -- Where the registry does not observe a source with an engine ready, its observation has one of the
  -- fixed public reasons, whatever failed: the reads, the resource, the Secret or the context.
  pub observe_source_of-Refused :
      (e : EngineSelection)
      → s.engine ≡ some e
      → (observe_source_of r ended namespace s).ready ≡ false
      → Refused (observe_source_of r ended namespace s)
  unfolding observe_source_of
  observe_source_of-Refused e declared h =
      selected-Refused ended (select s.engine s.adapter) (rw declared (select-engine e s.adapter)) h
