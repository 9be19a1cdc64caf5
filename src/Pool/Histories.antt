-- ===== src/Pool/Histories.antt =====
-- A pool that `NewPool` makes is consistent, and stays so through every history of calls.
use devin2proxy.Prelude.{
  ℕ, suc, ◌≡◌, refl, inl, inr, Bool, false, ◌||◌, Option, some, none, arith, List, [], ◌∷◌, length,
  Bytes, bytes_eq, replicate, Bool-cases, Option-cases, length-replicate,
}
use devin2proxy.Status.{AccountStatus}
use devin2proxy.Errors.{GoError}
use devin2proxy.Rotate
use devin2proxy.Rotate.Deadlines.{new_rotation_cursor-IsPlaced}
use devin2proxy.Pool.Accounts.{
  Pool, Source, pool_source, append_entry, collect_tokens, empty_pool, server_url, new_pool,
  holds_key, clean_token, add, remove, remove_credential, next, remember, index_locked,
}
use devin2proxy.Pool.Cooldowns.{
  report, report_status, cooldown, report_refusal, record_refusal, set_status_source,
  clear_cooldown, release_busy, apply_quota,
}
use devin2proxy.Pool.Identity.{Numbered}
use devin2proxy.Pool.Invariant.{IsConsistent, KeysDistinct, Below, Below-append, Below-suc}
use devin2proxy.Pool.Consistent.{
  add-IsConsistent, remove-IsConsistent, remove_credential-IsConsistent, next-IsConsistent,
  append_entry-keys, append_entry-Numbered,
}
use devin2proxy.Pool.Reports.{
  record_refusal-IsConsistent, refresh_quota-IsConsistent, clear_cooldown-IsConsistent,
  apply_quota-IsConsistent, release_busy-IsConsistent, remember-IsConsistent,
}

pub report_refusal-IsConsistent :
    (p : Pool) (creds status cool : Option ℕ) (now later : ℕ)
    → IsConsistent p
    → IsConsistent (report_refusal p creds status cool now later).1
unfolding report_refusal
report_refusal-IsConsistent p creds status none now later v = v
report_refusal-IsConsistent p creds status (some cool) now later v =
    elim (Option-cases (index_locked p creds)) [
      | inl gone ↦ rw (gone, report_refusal) v
      | inr (idx, held) ↦
          let v' = record_refusal-IsConsistent p v idx cool now in
          rw (held, report_refusal)
            (ground (
              arith,
              v',
              refresh_quota-IsConsistent (record_refusal p idx cool now) v' creds later,
            ))
    ]

-- A call of the pool, with the clock it reads.
pub data Call : Type 0 where
  adds : Bytes → Call
  removes : ℕ → Call
  removes_credential : Option ℕ → Call
  nexts : ℕ → Call
  reports : Option ℕ → ℕ → Option GoError → ℕ → ℕ → Call
  remembers : Option ℕ → AccountStatus → Call
  sets_status : Bool → Call
  clears : Option ℕ → ℕ → Call
  applies : Option ℕ → AccountStatus → ℕ → Call
  releases : Option ℕ → Call

-- What the goroutine of `refreshQuota` calls once the status call has answered (`none` is its error):
-- each is a step of its own, and the calls of others may come between them.
abbrev pub finish_refresh : Option ℕ → Option AccountStatus → ℕ → List Call
finish_refresh creds none now = releases creds ∷ []
finish_refresh creds (some st) now = remembers creds st ∷ applies creds st now ∷ releases creds ∷ []

unfoldable pub step : Pool → Call → Pool
step p (adds raw) = (add p raw).1
step p (removes idx) = (remove p idx).1
step p (removes_credential creds) = (remove_credential p creds).1
step p (nexts now) = (next p now).1
step p (reports creds status err now later) = (report p creds status err now later).1
step p (remembers creds st) = remember p creds st
step p (sets_status b) = set_status_source p b
step p (clears creds now) = (clear_cooldown p creds now).1
step p (applies creds st now) = apply_quota p creds st now
step p (releases creds) = release_busy p creds

unfoldable pub run : Pool → List Call → Pool
unfolding step
run p [] = p
run p (c ∷ cs) = run (step p c) cs

pub step-IsConsistent : (p : Pool) (c : Call) → IsConsistent p → IsConsistent (step p c)
unfolding step
step-IsConsistent p (adds raw) v = add-IsConsistent p v raw
step-IsConsistent p (removes idx) v = remove-IsConsistent p v idx
step-IsConsistent p (removes_credential creds) v = remove_credential-IsConsistent p v creds
step-IsConsistent p (nexts now) v = next-IsConsistent p v now
step-IsConsistent p (reports creds status err now later) v =
    unfold report in
    report_refusal-IsConsistent p creds (report_status status err)
      (cooldown (report_status status err)) now later v
step-IsConsistent p (remembers creds st) v = remember-IsConsistent p v creds st
step-IsConsistent p (sets_status b) v = unfold set_status_source in ground (arith, v)
step-IsConsistent p (clears creds now) v = clear_cooldown-IsConsistent p v creds now
step-IsConsistent p (applies creds st now) v = apply_quota-IsConsistent p v creds st now
step-IsConsistent p (releases creds) v = release_busy-IsConsistent p v creds

pub run-IsConsistent : (p : Pool) (cs : List Call) → IsConsistent p → IsConsistent (run p cs)
unfolding run
run-IsConsistent p [] v = v
run-IsConsistent p (c ∷ cs) v = run-IsConsistent (step p c) cs (step-IsConsistent p c v)

-- What the loop of `NewPool` keeps, before the slots are made.
record Collected (p : Pool) : Type 0 where
  numbered : Numbered p.heap 0 p.entries
  allocated : Below p.fresh p.entries
  keys : KeysDistinct p.heap p.entries
  unserved : p.last_rotation ≡ none

-- The slots that `NewPool` makes for the entries it has collected.
abbrev pub with_slots : Pool → Pool
with_slots p = record p {
  rot = Rotate.new_rotation_cursor (length p.entries);
  busy = replicate (length p.entries) false;
  quota_cool_until = replicate (length p.entries) 0;
}

with_slots-IsConsistent : (p : Pool) → Collected p → IsConsistent (with_slots p)
unfolding Rotate.new_rotation_cursor
with_slots-IsConsistent p c = record {
  slots = length-replicate (length p.entries) 0;
  busy_slots = length-replicate (length p.entries) false;
  quota_slots = length-replicate (length p.entries) 0;
  placed = new_rotation_cursor-IsPlaced (length p.entries);
  numbered = c.numbered;
  allocated = c.allocated;
  keys = c.keys;
  last = rw c.unserved tt;
}

append_entry-Collected :
    (p : Pool) (tok : Bytes) (source : Source)
    → holds_key p.heap p.entries tok ≡ false
    → Collected p
    → Collected (append_entry p tok source)
unfolding append_entry
append_entry-Collected p tok source new c =
    let v = with_slots-IsConsistent p c in
    record {
      numbered = append_entry-Numbered (with_slots p) v tok source;
      allocated =
          Below-append (suc p.fresh) p.fresh p.entries (Below-suc p.fresh p.entries c.allocated)
            (omega arith);
      keys = append_entry-keys (with_slots p) v tok source new;
      unserved = c.unserved;
    }

collect_tokens-Collected :
    (tokens : List Bytes) (p : Pool) → Collected p → Collected (collect_tokens p tokens)
unfolding collect_tokens
collect_tokens-Collected [] p c = c
collect_tokens-Collected (raw ∷ tokens) p c =
    elim (Bool-cases
      (bytes_eq (clean_token raw) [] || holds_key p.heap p.entries (clean_token raw))) [
        | inl skipped ↦ rw skipped (collect_tokens-Collected tokens p c)
        | inr new ↦ rw new (
            collect_tokens-Collected tokens _ (
              append_entry-Collected p (clean_token raw) (pool_source (length p.entries))
                (ground arith) c))
      ]

pub new_pool-IsConsistent : (tokens : List Bytes) (url : Bytes) → IsConsistent (new_pool tokens url)
unfolding new_pool
new_pool-IsConsistent tokens url =
    with_slots-IsConsistent (collect_tokens (empty_pool (server_url url)) tokens) (
      collect_tokens-Collected tokens (empty_pool (server_url url)) (
        unfold empty_pool in
        (record { numbered = tt; allocated = tt; keys = tt; unserved = refl })))

-- After any history of calls the per-slot lists have one slot for each account, the cursor and the
-- last index are in range, every credential knows its own index, and no two accounts share a key.
pub run-new_pool-IsConsistent :
    (tokens : List Bytes) (url : Bytes) (cs : List Call)
    → IsConsistent (run (new_pool tokens url) cs)
run-new_pool-IsConsistent tokens url cs =
    run-IsConsistent (new_pool tokens url) cs (new_pool-IsConsistent tokens url)
