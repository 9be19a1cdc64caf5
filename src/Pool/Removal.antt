-- ===== src/Pool/Removal.antt =====
-- What a removal leaves behind: the survivors with their own state, and nothing for the removed one.
use devin2proxy.Prelude.{
  ℕ, zero, suc, ◌-◌, ◌<◌, ◌≡◌, refl, ◌∙◌, ◌≢◌, false, Option, some, none, arith, length, get_elem?,
  get_or, List, [], ◌∷◌, remove_at,
}
use devin2proxy.Errors.{GoError}
use devin2proxy.Rotate.{deadline}
use devin2proxy.Rotate.Deadlines.{survivor, get_or-survivor, remove_slot-deadline}
use devin2proxy.Pool.Accounts.{Pool, index_locked, index_at, same_entry, splice, shift_identities}
use devin2proxy.Pool.Cooldowns.{report}
use devin2proxy.Pool.Identity.{NotIn, Numbered-Distinct, NotIn-removed, index_locked_iff}
use devin2proxy.Pool.Invariant.{IsConsistent}
use devin2proxy.Pool.Consistent.{splice-IsConsistent}
use devin2proxy.Pool.Guard.{report_stranger}

get_elem?-remove_at :
    (es : List ℕ) (i j : ℕ) → j ≢ i → get_elem? (remove_at es i) (survivor i j) ≡ get_elem? es j
get_elem?-remove_at [] i j h = refl
get_elem?-remove_at (e ∷ es) zero zero h = absurd (h refl)
get_elem?-remove_at (e ∷ es) zero (suc j) h = ground arith
get_elem?-remove_at (e ∷ es) (suc i) zero h = ground arith
get_elem?-remove_at (e ∷ es) (suc i) (suc j) h = ground (arith, get_elem?-remove_at es i j)

not_held :
    (o : Option ℕ) (es : List ℕ) (i c : ℕ) → NotIn c es → same_entry (get_elem? es i) c ≡ false
not_held o [] i c n = refl
not_held o (e ∷ es) zero c n = ground (arith, n.0)
not_held o (e ∷ es) (suc i) c n = not_held o es i c n.1

stranger_at : (p : Pool) (c : ℕ) (o : Option ℕ) → NotIn c p.entries → index_at p c o ≡ none
unfolding index_at
stranger_at p c none n = refl
stranger_at p c (some i) n = rw (not_held none p.entries i c n)

-- The removed credential keeps its old index, and still resolves to no slot: not to the account
-- that has taken its place.
pub index_locked-removed :
    (p : Pool) (idx a : ℕ)
    → IsConsistent p
    → get_elem? p.entries idx ≡ some a
    → index_locked (splice p idx) (some a) ≡ none
unfolding index_locked splice
index_locked-removed p idx a v at =
    stranger_at (splice p idx) a ((splice p idx).heap a).pool_index
      (NotIn-removed idx a p.entries (Numbered-Distinct p.heap 0 p.entries v.numbered) at)

-- A report about an account that was removed before it arrives benches nobody.
pub report_after_remove :
    (p : Pool) (idx a status : ℕ) (err : Option GoError) (now later : ℕ)
    → IsConsistent p
    → get_elem? p.entries idx ≡ some a
    → report (splice p idx) (some a) status err now later ≡ (false, splice p idx)
report_after_remove p idx a status err now later v at =
    report_stranger (splice p idx) (some a) status err now later (index_locked-removed p idx a v at)

-- A surviving credential resolves to its new index, where its deadline, quota hold, status mark and
-- remembered identity are the ones it had.
pub splice-survivor :
    (p : Pool) (idx j c : ℕ)
    → IsConsistent p
    → idx < length p.entries
    → j ≢ idx
    → get_elem? p.entries j ≡ some c
    → (index_locked (splice p idx) (some c) ≡ some (survivor idx j))
      × (deadline (splice p idx).rot (survivor idx j) ≡ deadline p.rot j)
      × (get_or (splice p idx).quota_cool_until (survivor idx j) 0 ≡ get_or p.quota_cool_until j 0)
      × (get_or (splice p idx).busy (survivor idx j) false ≡ get_or p.busy j false)
      × ((splice p idx).identities (survivor idx j) ≡ p.identities j)
splice-survivor p idx j c v h ne at = (
  (index_locked_iff (splice p idx) c (survivor idx j) (splice-IsConsistent p v idx h).numbered).1
      (unfold splice in get_elem?-remove_at p.entries idx j ne ∙ at),
  unfold splice in remove_slot-deadline p.rot idx j (rw (v.slots) h) ne,
  unfold splice in get_or-survivor p.quota_cool_until idx j 0 ne,
  unfold splice in get_or-survivor p.busy idx j false ne,
  unfold splice in same_identity ne,
)
  where
    suc_pred : idx < j → suc (j - 1) ≡ j
    suc_pred lt = omega arith

    same_identity : j ≢ idx → shift_identities idx p.identities (survivor idx j) ≡ p.identities j
    same_identity ne' = ground (arith, suc_pred)
