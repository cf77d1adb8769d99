-- ===== src/Providers/Catalog.antt =====
-- internal/providers/catalog.go: its two answers to which provider has a model.
use costguard.Base.{
  ◌≡◌, inl, inr, refl, true, false, not, ◌&&◌, String, Bool, List, [], ◌∷◌, none, some, Dict,
  lookup, has, insert, IsMap, insert-IsMap, lookup_missing, any, str_eq, eq_iff, arith, is_empty,
  Bool-cases, Option-cases,
}
use costguard.Providers.{
  RuntimeMetadata, set_metadata, lists_model, supports_model, model_supported,
}

-- The maps that `Set` makes of an empty catalog.
abbrev pub catalog_of :
    List (String × RuntimeMetadata) → Dict RuntimeMetadata → Dict RuntimeMetadata
catalog_of [] items = items
catalog_of ((name, md) ∷ sets) items = catalog_of sets (set_metadata items name md)

catalog_of-IsMap :
    (sets : List (String × RuntimeMetadata)) (items : Dict RuntimeMetadata)
    → IsMap items
    → IsMap (catalog_of sets items)
unfolding set_metadata
catalog_of-IsMap [] items h = h
catalog_of-IsMap ((name, md) ∷ sets) items h =
    catalog_of-IsMap sets (insert name md items) (insert-IsMap name md items h)

abbrev offers : RuntimeMetadata → String → Bool
offers md model_id = md.enabled && (not (is_empty md.supported_models) && lists_model md model_id)

-- The specification: the name has an entry that is enabled and lists the model.
abbrev pub offered : Dict RuntimeMetadata → String → String → Bool
offered items name model_id = elim (lookup name items) [
  | none ↦ false
  | some md ↦ offers md model_id
]

abbrev pub listed : Dict RuntimeMetadata → String → String → Bool
listed items name model_id = any (λ n. str_eq n name) (supports_model items model_id)

offered_missing :
    (items : Dict RuntimeMetadata) (name model_id : String)
    → has name items ≡ false
    → offered items name model_id ≡ false
offered_missing items name model_id h = rw (lookup_missing name items h, offered) refl

listed-offered :
    (items : Dict RuntimeMetadata) (name model_id : String)
    → IsMap items
    → listed items name model_id ≡ offered items name model_id
listed-offered [] name model_id h = refl
listed-offered ((k, md) ∷ items) name model_id h = elim (Bool-cases (str_eq k name)) [
  | inl same ↦
      ground
        (arith, eq_iff k name, offered_missing items k model_id, listed-offered items name model_id)
  | inr other ↦ ground (arith, listed-offered items name model_id)
]

-- Of a catalog made by `Set` alone, `SupportsModel` returns a name exactly when what was last set
-- for it is enabled and lists the model.
pub supports_model-offered :
    (sets : List (String × RuntimeMetadata)) (name model_id : String)
    → listed (catalog_of sets []) name model_id ≡ offered (catalog_of sets []) name model_id
supports_model-offered sets name model_id =
    listed-offered (catalog_of sets []) name model_id (catalog_of-IsMap sets [] tt)

-- A name that `SupportsModel` returns is one that `ModelSupported` accepts, so that the router may
-- pick it.
pub supports_model-model_supported :
    (sets : List (String × RuntimeMetadata)) (name model_id : String)
    → any (λ n. str_eq n name) (supports_model (catalog_of sets []) model_id) ≡ true
    → model_supported (catalog_of sets []) name model_id ≡ true
unfolding model_supported
supports_model-model_supported sets name model_id h =
    let items = catalog_of sets [] in
    let same = supports_model-offered sets name model_id in
    elim (Option-cases (lookup name items)) [
      | inl missing ↦ ground arith
      | inr (md, found) ↦ ground arith
    ]
