-- ===== src/Store/Json.antt =====
-- What `_jsonable` of agent_pinboard/store.py makes: JSON values, and of a JSON value the value itself.
use mathlib.Core.Path.{ap₂}
use agent_pinboard.Prelude.{
  String, ◌≡◌, refl, ap, sym, subst, Option, none, some, Option-cases, inl, inr,
}
use agent_pinboard.Value.{
  Value, Values, Attrs, null, string, int, other, list, tuple, dict, model, nil, cons, end, attr,
}
use agent_pinboard.Store.Api.{jsonable, jsonable_all, jsonable_items}

-- No tuple, no model instance and no date is in the value.
module _ (as_date : String → Option String) where
  unfoldable mutual
    pub IsJson : Value → Type 0
    IsJson null = Unit
    IsJson (string s) = Unit
    IsJson (int n) = Unit
    IsJson (other s) = as_date s ≡ none
    IsJson (list vs) = AreJson vs
    IsJson (tuple vs) = ⊥
    IsJson (dict d) = HasJson d
    IsJson (model c d) = ⊥

    pub AreJson : Values → Type 0
    AreJson nil = Unit
    AreJson (cons v vs) = IsJson v × AreJson vs

    pub HasJson : Attrs → Type 0
    HasJson end = Unit
    HasJson (attr k v d) = IsJson v × HasJson d

module _ (dumped : String → Attrs → Value) (as_date : String → Option String) where
  abbrev dated : String → Option String → Value
  dated s o = elim o [ none ↦ other s | some t ↦ string t ]

  mutual
    unfolding jsonable IsJson

    pub jsonable_self : (v : Value) → IsJson as_date v → jsonable dumped as_date v ≡ v
    jsonable_self null h = refl
    jsonable_self (string s) h = refl
    jsonable_self (int n) h = refl
    jsonable_self (other s) h = ap (dated s) h
    jsonable_self (list vs) h = ap list (jsonable_all_self vs h)
    jsonable_self (tuple vs) h = absurd h
    jsonable_self (dict d) h = ap dict (jsonable_items_self d h)
    jsonable_self (model c d) h = absurd h

    jsonable_all_self : (vs : Values) → AreJson as_date vs → jsonable_all dumped as_date vs ≡ vs
    jsonable_all_self nil h = refl
    jsonable_all_self (cons v vs) h = ap₂ cons (jsonable_self v h.0) (jsonable_all_self vs h.1)

    jsonable_items_self : (d : Attrs) → HasJson as_date d → jsonable_items dumped as_date d ≡ d
    jsonable_items_self end h = refl
    jsonable_items_self (attr k v d) h =
        ap₂ (attr k) (jsonable_self v h.0) (jsonable_items_self d h.1)

  module _ (json_dumped : (c : String) (d : Attrs) → IsJson as_date (dumped c d)) where
    mutual
      unfolding jsonable IsJson

      pub jsonable-IsJson : (v : Value) → IsJson as_date (jsonable dumped as_date v)
      jsonable-IsJson null = tt
      jsonable-IsJson (string s) = tt
      jsonable-IsJson (int n) = tt
      jsonable-IsJson (other s) = elim (Option-cases (as_date s)) [
        | inl e ↦ subst (IsJson as_date) (sym (ap (dated s) e)) e
        | inr (t, e) ↦ subst (IsJson as_date) (sym (ap (dated s) e)) tt
      ]
      jsonable-IsJson (list vs) = jsonable_all-AreJson vs
      jsonable-IsJson (tuple vs) = jsonable_all-AreJson vs
      jsonable-IsJson (dict d) = jsonable_items-HasJson d
      jsonable-IsJson (model c d) = json_dumped c d

      jsonable_all-AreJson : (vs : Values) → AreJson as_date (jsonable_all dumped as_date vs)
      jsonable_all-AreJson nil = tt
      jsonable_all-AreJson (cons v vs) = (jsonable-IsJson v, jsonable_all-AreJson vs)

      jsonable_items-HasJson : (d : Attrs) → HasJson as_date (jsonable_items dumped as_date d)
      jsonable_items-HasJson end = tt
      jsonable_items-HasJson (attr k v d) = (jsonable-IsJson v, jsonable_items-HasJson d)
