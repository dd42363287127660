-- ===== src/Samples/Backend.antt =====
-- A store that keeps its entries in a list.
use agent_pinboard.Prelude.{
  ℕ, zero, suc, String, ◌≡◌, ◌<◌, refl, sym, ap, Option, none, some, List, [], ◌∷◌, Bool, true,
  false, ◌==◌, string_eq, pair_eq, get, put, get-put, take, length, All, arith, eq_iff, Bool-cases,
  inl, inr, subst, ◌⊎◌,
}
use agent_pinboard.Store.{Dict, Namespace, BaseStore}
use agent_pinboard.Store.AsyncApi.{AsyncStore}

abbrev pub Entries : Type 0
Entries = List ((Namespace × String) × Dict)

abbrev pub entry_of : Bool → String → Option Dict → List (String × Dict) → List (String × Dict)
entry_of false k o items = items
entry_of true k none items = items
entry_of true k (some d) items = (k, d) ∷ items

-- The entries of a namespace, each with what the store has for its key.
unfoldable pub listing : Namespace → Entries → Entries → List (String × Dict)
unfolding get
listing ns [] s = []
listing ns (((n, k), _) ∷ es) s = entry_of (n == ns) k (get (ns, k) s) (listing ns es s)

All-entry_of :
    (P : String × Dict → Type 0) (b : Bool) (k : String) (o : Option Dict)
    (items : List (String × Dict))
    → ((d : Dict) → o ≡ some d → P (k, d))
    → All P items
    → All P (entry_of b k o items)
All-entry_of P false k o items f p = p
All-entry_of P true k none items f p = p
All-entry_of P true k (some d) items f p = (f d refl, p)

pub All-listing :
    (ns : Namespace) (es s : Entries)
    → All (λ (p : String × Dict). get (ns, p.0) s ≡ some p.1) (listing ns es s)
unfolding listing
All-listing ns [] s = tt
All-listing ns (((n, k), _) ∷ es) s =
    All-entry_of (λ p. get (ns, p.0) s ≡ some p.1) (n == ns) k (get (ns, k) s) (listing ns es s)
      (λ d at. at) (All-listing ns es s)

pub All-take : {A : Type 0} (P : A → Type 0) (m : ℕ) (l : List A) → All P l → All P (take m l)
All-take P zero l p = tt
All-take P (suc m) [] p = tt
All-take P (suc m) (x ∷ l) p = (p.0, All-take P m l p.1)

pub take_whole : {A : Type 0} (m : ℕ) (l : List A) → length (take m l) < m → take m l ≡ l
take_whole zero l h = absurd (omega (arith, h))
take_whole (suc m) [] h = refl
take_whole (suc m) (x ∷ l) h = ap (λ t. x ∷ t) (take_whole m l (omega (arith, h)))

get-entry_of :
    (b : Bool) (j k : String) (o : Option Dict) (d : Dict) (items : List (String × Dict))
    → (j ≡ k → o ≡ some d)
    → ((b ≡ true) × (j ≡ k)) ⊎ (get k items ≡ some d)
    → get k (entry_of b j o items) ≡ some d
unfolding get
get-entry_of false j k o d items f (inl (h, _)) = absurd (ground (arith, h))
get-entry_of false j k o d items f (inr h) = h
get-entry_of true j k none d items f (inl (_, e)) = absurd (ground (arith, f e))
get-entry_of true j k none d items f (inr h) = h
get-entry_of true j k (some w) d items f q = elim (Bool-cases (j == k)) [
  | inl e ↦ ground (arith, e, f ((eq_iff j k).0 e))
  | inr e ↦ elim q [
    | inl (_, same) ↦ absurd (ground (arith, e, (eq_iff j k).1 same))
    | inr h ↦ ground (arith, e, h)
  ]
]

pub get-listing :
    (ns : Namespace) (k : String) (d o : Dict) (es s : Entries)
    → get (ns, k) s ≡ some d
    → get (ns, k) es ≡ some o
    → get k (listing ns es s) ≡ some d
unfolding listing get
get-listing ns k d o [] s at h = absurd (ground (arith, h))
get-listing ns k d o (((n, j), v) ∷ es) s at h =
    let here : Namespace × String = (n, j) in
    let asked : Namespace × String = (ns, k) in
    get-entry_of (n == ns) j k (get (ns, j) s) d (listing ns es s)
      (λ e. subst (λ x. get (ns, x) s ≡ some d) (sym e) at)
      (elim (Bool-cases (here == asked)) [
        | inl e ↦ inl (ground (arith, e), (eq_iff j k).0 (ground (arith, e)))
        | inr e ↦ inr (get-listing ns k d o es s at (ground (arith, e, h)))
      ])

unfoldable pub base : BaseStore
unfolding listing get put
base = record {
  Store = Entries;
  item = λ ns k s. get (ns, k) s;
  put = λ ns k d s. put (ns, k) d s;
  item-put = λ ns ns' k k' d s. get-put (ns, k) (ns', k') d s;
  search = λ ns limit s. take limit (listing ns s s);
  search-item = λ ns limit s.
      All-take (λ (p : String × Dict). get (ns, p.0) s ≡ some p.1) limit (listing ns s s)
        (All-listing ns s s);
  item-search = λ ns limit k d s short at.
      subst (λ l. get k l ≡ some d) (sym (take_whole limit (listing ns s s) short))
        (get-listing ns k d d s s at at);
}

unfoldable pub blank : base.Store
unfolding base
blank = []

pub blank_item : (ns : Namespace) (k : String) → base.item ns k blank ≡ none
unfolding get base blank
blank_item ns k = refl

abbrev pub async : AsyncStore base
async = record {
  aget = base.item;
  aput = base.put;
  asearch = base.search;
  aget-eq = λ ns k s. refl;
  aput-eq = λ ns k d s. refl;
  asearch-eq = λ ns limit s. refl;
}
