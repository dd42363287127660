-- ===== src/Session/Locked.antt =====
-- The locks of agent_pinboard/session.py: one for each session, for the life of the process.
use agent_pinboard.Prelude.{
  ℕ, String, ◌≡◌, ◌<◌, ◌↔◌, sym, ap, ◌∙◌, subst, some, List, [], ◌∷◌, get, get-put, get-put_self,
  get-put_cases, string_eq, arith, eq_iff, Option-cases, inl, inr,
}
use agent_pinboard.Session.{Locks, no_locks, lock_for}

-- The table after the calls for these sessions, in this order.
unfoldable pub after_calls : List String → Locks → Locks
after_calls [] locks = locks
after_calls (t ∷ ts) locks = after_calls ts (lock_for t locks).1

-- Every lock of the table was made, and no two sessions have one.
record IsProper (locks : Locks) : Type 0 where
  made : (t : String) (l : ℕ) → get t locks.session_locks ≡ some l → l < locks.made
  distinct :
      (t u : String) (l : ℕ)
      → get t locks.session_locks ≡ some l
      → get u locks.session_locks ≡ some l
      → t ≡ u

-- The session has the lock.
abbrev Locked : String → ℕ → Locks → Type 0
Locked t l locks = get t locks.session_locks ≡ some l

lock_for-Locked : (t : String) (locks : Locks) → Locked t (lock_for t locks).0 (lock_for t locks).1
unfolding lock_for
lock_for-Locked t locks = elim (Option-cases (get t locks.session_locks)) [
  | inl absent ↦ rw (lock_for, absent) (get-put_self t locks.made locks.session_locks)
  | inr (l, there) ↦ rw (lock_for, there) there
]

lock_for_keeps :
    (t u : String) (l : ℕ) (locks : Locks) → Locked u l locks → Locked u l (lock_for t locks).1
unfolding lock_for
lock_for_keeps t u l locks h = elim (Option-cases (get t locks.session_locks)) [
  | inl absent ↦
      rw (lock_for, absent)
        (ground (
          arith,
          get-put t u locks.made locks.session_locks,
          h,
          absent,
          eq_iff t u,
          ap (λ x. get x locks.session_locks),
        ))
  | inr (k, there) ↦ rw (lock_for, there) h
]

lock_for-IsProper : (t : String) (locks : Locks) → IsProper locks → IsProper (lock_for t locks).1
unfolding lock_for
lock_for-IsProper t locks h = elim (Option-cases (get t locks.session_locks)) [
  | inr (l, there) ↦ rw (lock_for, there) h
  | inl absent ↦
      rw (lock_for, absent)
        (record {
          made = λ u l q. elim (get-put_cases t u locks.made l locks.session_locks q) [
            | inl (_, new) ↦ omega (arith, new)
            | inr old ↦ omega (arith, h.made u l old)
          ];
          distinct = λ u v l q q'. elim (get-put_cases t u locks.made l locks.session_locks q) [
            | inl (same, new) ↦ elim (get-put_cases t v locks.made l locks.session_locks q') [
              | inl (same', _) ↦ sym same ∙ same'
              | inr old ↦ absurd (omega (arith, new, h.made v l old))
            ]
            | inr old ↦ elim (get-put_cases t v locks.made l locks.session_locks q') [
              | inl (_, new) ↦ absurd (omega (arith, new, h.made u l old))
              | inr old' ↦ h.distinct u v l old old'
            ]
          ];
        })
]

after_calls-IsProper :
    (ts : List String) (locks : Locks) → IsProper locks → IsProper (after_calls ts locks)
unfolding after_calls
after_calls-IsProper [] locks h = h
after_calls-IsProper (t ∷ ts) locks h =
    after_calls-IsProper ts (lock_for t locks).1 (lock_for-IsProper t locks h)

after_calls_keeps :
    (ts : List String) (u : String) (l : ℕ) (locks : Locks)
    → Locked u l locks
    → Locked u l (after_calls ts locks)
unfolding after_calls
after_calls_keeps [] u l locks h = h
after_calls_keeps (t ∷ ts) u l locks h =
    after_calls_keeps ts u l (lock_for t locks).1 (lock_for_keeps t u l locks h)

-- Two calls of `lock_for` in one process get the same lock exactly when they are for the same
-- session, whatever calls were made before the first and between the two.
pub lock_for_iff :
    (before between : List String) (t u : String)
    → ((lock_for t (after_calls before no_locks)).0
        ≡ (lock_for u (after_calls between (lock_for t (after_calls before no_locks)).1)).0)
      ↔ (t ≡ u)
unfolding get
lock_for_iff before between t u =
    let first = after_calls before no_locks in
    let got = lock_for t first in
    let second = after_calls between got.1 in
    let got' = lock_for u second in
    let proper = lock_for-IsProper u second (
      after_calls-IsProper between got.1 (
        lock_for-IsProper t first (
          after_calls-IsProper before no_locks (record {
            made = λ _ _ q. absurd (ground (arith, q));
            distinct = λ _ _ _ q _. absurd (ground (arith, q));
          })))) in
    let mine : Locked t got.0 got'.1 =
      lock_for_keeps u t got.0 second
        (after_calls_keeps between t got.0 got.1 (lock_for-Locked t first)) in
    let other : Locked u got'.0 got'.1 = lock_for-Locked u second in
    (
      λ same. proper.distinct t u got.0 mine (subst (λ l. Locked u l got'.1) (sym same) other),
      λ same. ground (arith, mine, other, ap (λ x. get x got'.1.session_locks) same),
    )
