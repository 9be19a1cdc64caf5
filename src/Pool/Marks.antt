-- ===== src/Pool/Marks.antt =====
-- internal/devin/pool.go: the busy mark of an account, through every call but the one that takes it off.
use devin2proxy.Prelude.{
  ℕ, zero, suc, ◌<◌, ◌≡◌, ◌≢◌, refl, sym, ap, ◌∙◌, inl, inr, Bool, true, false, ◌||◌, not, Option,
  some, none, List, [], ◌∷◌, ◌++◌, arith, length, ltb, leb, ◌==◌, if◌then◌else◌, Bool-cases,
  Option-cases, get_elem?, get_or, set, remove_at, get_or-set_self, get_or-set_ne,
  get_or-remove_below, get_or-remove_above, get_or-append_below, Bytes, bytes_eq,
}
use devin2proxy.Rotate
use devin2proxy.Rotate.{RotationCursor}
use devin2proxy.Status.{AccountStatus}
use devin2proxy.Pool.Accounts.{
  Pool, index_locked, add, add_account, append_entry, clean_token, holds_key, remove, splice,
  remove_credential, next, next_of_pick,
}
use devin2proxy.Pool.Cooldowns.{
  quota_held_locked, begin_refresh, refresh_quota, hold_slot, apply_quota, release_busy,
}
use devin2proxy.Pool.Identity.{index_locked_iff}
use devin2proxy.Pool.Invariant.{IsConsistent}

-- The mark of the account of `c` is set, wherever it stands by now.
pub record IsFlying (c : ℕ) (p : Pool) : Type 0 where
  pub made : c < p.fresh
  pub marked : (i : ℕ) → get_elem? p.entries i ≡ some c → get_or p.busy i false ≡ true

pub inside : (es : List ℕ) (i c : ℕ) → get_elem? es i ≡ some c → i < length es
inside [] i c at = absurd (ground (arith, at))
inside (e ∷ es) zero c at = omega arith
inside (e ∷ es) (suc i) c at = omega (arith, inside es i c at)

-- The place in the list before a removal.
abbrev before_removal : ℕ → ℕ → ℕ
before_removal idx i = if ltb i idx then i else suc i

get_elem?-before_removal :
    (es : List ℕ) (idx i : ℕ) → get_elem? (remove_at es idx) i ≡ get_elem? es (before_removal idx i)
get_elem?-before_removal [] idx i = refl
get_elem?-before_removal (e ∷ es) zero i = ground arith
get_elem?-before_removal (e ∷ es) (suc idx) zero = ground arith
get_elem?-before_removal (e ∷ es) (suc idx) (suc i) =
    ground (arith, get_elem?-before_removal es idx i)

get_or-before_removal :
    (bs : List Bool) (idx i : ℕ)
    → get_or (remove_at bs idx) i false ≡ get_or bs (before_removal idx i) false
get_or-before_removal bs idx i = elim (Bool-cases (ltb i idx)) [
  | inl low ↦ rw low (get_or-remove_below bs idx i false (ground (arith, low)))
  | inr high ↦ rw high (get_or-remove_above bs idx i false (ground (arith, high)))
]

get_elem?-append :
    (es : List ℕ) (e i c : ℕ)
    → c ≢ e
    → get_elem? (es ++ (e ∷ [])) i ≡ some c
    → get_elem? es i ≡ some c
get_elem?-append [] e zero c ne at = absurd (ground (arith, ne, at))
get_elem?-append [] e (suc i) c ne at = at
get_elem?-append (x ∷ es) e zero c ne at = at
get_elem?-append (x ∷ es) e (suc i) c ne at = get_elem?-append es e i c ne at

module _ (c : ℕ) (p : Pool) (v : IsConsistent p) (f : IsFlying c p) where
  pub splice-IsFlying : (idx : ℕ) → IsFlying c (splice p idx)
  unfolding splice
  splice-IsFlying idx = record {
    made = f.made;
    marked = λ i at.
        get_or-before_removal p.busy idx i
        ∙ f.marked (before_removal idx i) (sym (get_elem?-before_removal p.entries idx i) ∙ at);
  }

  pub remove-IsFlying : (idx : ℕ) → IsFlying c (remove p idx).1
  unfolding remove
  remove-IsFlying idx = elim (Bool-cases (leb (length p.entries) idx)) [
    | inl out ↦ rw out f
    | inr within ↦ rw within (splice-IsFlying idx)
  ]

  pub remove_credential-IsFlying : (creds : Option ℕ) → IsFlying c (remove_credential p creds).1
  unfolding remove_credential
  remove_credential-IsFlying creds = elim (Option-cases (index_locked p creds)) [
    | inl gone ↦ rw (gone, remove_credential) f
    | inr (idx, held) ↦ rw (held, remove_credential) (remove-IsFlying idx)
  ]

  pub add-IsFlying : (raw : Bytes) → IsFlying c (add p raw).1
  unfolding add add_account append_entry
  add-IsFlying raw =
      elim (Bool-cases
        (bytes_eq (clean_token raw) [] || holds_key p.heap p.entries (clean_token raw))) [
          | inl old ↦ rw old f
          | inr new ↦ rw new (record {
            made = omega (arith, f.made);
            marked = λ i at.
                let was =
                  get_elem?-append p.entries p.fresh i c (λ e. ground (arith, e, f.made)) at in
                get_or-append_below p.busy (false ∷ []) i false
                  (ground (arith, inside p.entries i c was, v.busy_slots))
                ∙ f.marked i was;
          })
        ]

  -- What changes neither the accounts nor the marks.
  pub same_marks :
      (q : Pool) → q.entries ≡ p.entries → q.busy ≡ p.busy → q.fresh ≡ p.fresh → IsFlying c q
  same_marks q e b n = record {
    made = omega (arith, f.made, n);
    marked = λ i at.
        ap (λ bs. get_or bs i false) b ∙ f.marked i (ap (λ es. get_elem? es i) (sym e) ∙ at);
  }

  pub next-IsFlying : (now : ℕ) → IsFlying c (next p now).1
  unfolding next
  next-IsFlying now = elim (Bool-cases (length p.entries == 0)) [
    | inl none_left ↦ rw none_left f
    | inr some_left ↦ rw some_left (of_pick (Rotate.pick p.rot now))
  ]
    where
      of_pick : (r : Option ℕ × RotationCursor) → IsFlying c (next_of_pick p r).1
      of_pick (none, rot) =
          unfold next_of_pick in
          same_marks (record p { rot = rot; last_rotation = none }) refl refl refl
      of_pick (some idx, rot) =
          unfold next_of_pick in
          same_marks (record p { rot = rot; last_rotation = some idx }) refl refl refl

  marked_too : (idx : ℕ) → IsFlying c (record p { busy = set p.busy idx true })
  marked_too idx = record {
    made = f.made;
    marked = λ i at. elim (Bool-cases (i == idx)) [
      | inl same ↦
          ap (λ k. get_or (set p.busy k true) i false) (ground (arith, same))
          ∙ get_or-set_self p.busy i true false
              (ground (arith, inside p.entries i c at, v.busy_slots))
      | inr other ↦
          get_or-set_ne p.busy idx i true false (λ e. ground (arith, e, other)) ∙ f.marked i at
    ];
  }

  pub refresh_quota-IsFlying :
      (creds : Option ℕ) (now : ℕ) → IsFlying c (refresh_quota p creds now).1
  unfolding refresh_quota begin_refresh
  refresh_quota-IsFlying creds now = elim (Option-cases (index_locked p creds)) [
    | inl gone ↦ rw (gone, refresh_quota) f
    | inr (idx, held) ↦
        rw (held, refresh_quota)
          (elim (Bool-cases
            (not p.status || get_or p.busy idx false || quota_held_locked p idx now)) [
              | inl not_now ↦ rw not_now f
              | inr starts ↦ rw starts (marked_too idx)
            ])
  ]

  pub apply_quota-IsFlying :
      (creds : Option ℕ) (st : AccountStatus) (now : ℕ) → IsFlying c (apply_quota p creds st now)
  unfolding apply_quota hold_slot
  apply_quota-IsFlying creds st now =
      same_marks (apply_quota p creds st now) (ground arith) (ground arith) (ground arith)

  pub release_busy-IsFlying :
      (creds : Option ℕ) → creds ≢ some c → IsFlying c (release_busy p creds)
  unfolding release_busy
  release_busy-IsFlying none other = unfold index_locked in f
  release_busy-IsFlying (some k) other = elim (Option-cases (index_locked p (some k))) [
    | inl gone ↦ rw (gone, release_busy) f
    | inr (idx, held) ↦
        rw (held, release_busy)
          (record {
            made = f.made;
            marked = λ i at.
                let at_k = (index_locked_iff p k idx v.numbered).0 held in
                get_or-set_ne p.busy idx i false false
                  (λ e. other (ap (λ o. o) (sym at_k ∙ ap (λ n. get_elem? p.entries n) e ∙ at)))
                ∙ f.marked i at;
          })
  ]
