-- ===== src/Pool/Examples.antt =====
-- Runs of the pool, and its theorems at concrete inputs.
use devin2proxy.Prelude.{
  ℕ, inr, ◌+◌, ◌≤◌, ◌<◌, ◌≡◌, refl, ◌↔◌, inl, true, false, some, none, arith, List, [], ◌∷◌, ◌++◌,
  get_elem?, get_or, codes, trim, before_byte,
}
use devin2proxy.Errors.{GoError}
use devin2proxy.Status.{AccountStatus, reset_deadline}
use devin2proxy.Rotate.{deadline}
use devin2proxy.Pool.Accounts.{
  Credentials, Pool, pool_source, clean_token, new_pool, index_locked, splice, holds_key, next,
  cool_rejected, cool_rate_limited, tokens,
}
use devin2proxy.Pool.Cooldowns.{
  report, record_refusal, refresh_quota, apply_quota, quota_held_locked,
}
use devin2proxy.Pool.Identity.{index_locked_iff}
use devin2proxy.Pool.Invariant.{IsConsistent}
use devin2proxy.Pool.Histories.{
  finish_refresh, Call, adds, removes, nexts, reports, run, run-new_pool-IsConsistent,
}
use devin2proxy.Pool.Guard.{
  others_cooling, empties_pool, record_refusal-deadline, report-deadline, io_timed_out,
  report_innocent,
}
use devin2proxy.Pool.Removal.{report_after_remove, splice-survivor}
use devin2proxy.Pool.Holds.{apply_quota-deadline}
use devin2proxy.Pool.Flights.{refresh_quota_once}
use devin2proxy.Pool.Serving.{next_warm}

clean_token_comment : clean_token (codes "  \"abc\"  # first") ≡ codes "abc"
unfolding clean_token trim before_byte
clean_token_comment = refl

-- A comment, a blank line and a repeated key leave two accounts.
tokens-new_pool :
    tokens (new_pool (codes "k1" ∷ codes "# no" ∷ codes "k2" ∷ codes " k1" ∷ []) [])
    ≡ codes "k1" ∷ codes "k2" ∷ []
unfolding new_pool tokens clean_token trim before_byte
tokens-new_pool = refl

abbrev account : ℕ → Credentials
account i = record {
  api_key = (100 + i) ∷ [];
  api_server_url = codes "https://b";
  source = pool_source i;
  pool_index = some i;
}

-- Three accounts; 1 is cooling until 90 and 2 until 80.
abbrev trio : Pool
trio = record {
  entries = 0 ∷ 1 ∷ 2 ∷ [];
  api_server_url = codes "https://b";
  rot = record { next = 0; cooling = 0 ∷ 90 ∷ 80 ∷ [] };
  status = true;
  busy = false ∷ false ∷ false ∷ [];
  quota_cool_until = 0 ∷ 0 ∷ 0 ∷ [];
  identities = λ i. none;
  last_rotation = none;
  heap = account;
  fresh = 3;
}

trio-IsConsistent : IsConsistent trio
unfolding holds_key
trio-IsConsistent = record {
  slots = refl;
  busy_slots = refl;
  quota_slots = refl;
  placed = record { at = inl refl };
  numbered = (refl, (refl, (refl, tt)));
  allocated = omega arith;
  keys = (refl, (refl, (refl, tt)));
  last = tt;
}

held_by : (c : ℕ) → c < 3 → index_locked trio (some c) ≡ some c
unfolding index_locked
held_by c h = ground arith

abbrev forbidden : GoError
forbidden = record {
  canceled = false;
  deadline_exceeded = false;
  os_deadline_exceeded = false;
  eof = false;
  http = some (record { status = 403; body = [] });
  connect = none;
  egress = none;
}

abbrev aborted : GoError
aborted = record forbidden { os_deadline_exceeded = true }

abbrev exhausted_daily : AccountStatus
exhausted_daily = record {
  name = [];
  email = [];
  daily_remaining_percent = some 0;
  weekly_remaining_percent = some 40;
  daily_reset = 500;
  weekly_reset = 900;
  plan_fields = [];
}

abbrev history : List Call
history = adds (codes "k3") ∷ nexts 10 ∷ reports (some 0) 0 (some forbidden) 20 21 ∷ removes 1 ∷ []

run-new_pool-IsConsistent_example :
    IsConsistent (run (new_pool (codes "k1" ∷ codes "k2" ∷ []) []) history)
run-new_pool-IsConsistent_example =
    run-new_pool-IsConsistent (codes "k1" ∷ codes "k2" ∷ []) [] history

index_locked_iff_example :
    (index_locked trio (some 2) ≡ some 2) ↔ (get_elem? trio.entries 2 ≡ some 2)
index_locked_iff_example = index_locked_iff trio 2 2 trio-IsConsistent.numbered

-- Refusing account 0 leaves none warm, so account 1 is held for the short cooldown at most.
emptied : empties_pool trio 0 cool_rejected 70 ≡ true
unfolding others_cooling
emptied = refl

record_refusal-deadline_example :
    deadline (record_refusal trio 0 cool_rejected 70).rot 0 ≡ 70 + cool_rate_limited
unfolding quota_held_locked others_cooling
record_refusal-deadline_example =
    record_refusal-deadline trio 0 cool_rejected 70 0 trio-IsConsistent (omega arith) (omega arith)

-- A rejection of account 0 at a time when account 2 is warm again.
report-deadline_example :
    deadline (report trio (some 0) 0 (some forbidden) 85 86).1.rot 0 ≡ 85 + cool_rejected
unfolding quota_held_locked others_cooling
report-deadline_example =
    report-deadline trio 0 0 85 86 0 forbidden (record { status = 403; body = [] })
      trio-IsConsistent (omega arith) (omega arith) (held_by 0 (omega arith)) refl refl refl refl
      (inr refl)

report_innocent_example : report trio (some 0) 0 (some aborted) 70 71 ≡ (false, trio)
report_innocent_example = report_innocent trio (some 0) aborted 70 71 (io_timed_out refl)

report_after_remove_example :
    report (splice trio 0) (some 0) 0 (some forbidden) 70 71 ≡ (false, splice trio 0)
report_after_remove_example =
    report_after_remove trio 0 0 0 (some forbidden) 70 71 trio-IsConsistent refl

splice-survivor_example :
    (index_locked (splice trio 0) (some 2) ≡ some 1)
    × (deadline (splice trio 0).rot 1 ≡ 80)
    × (get_or (splice trio 0).quota_cool_until 1 0 ≡ 0)
    × (get_or (splice trio 0).busy 1 false ≡ false)
    × ((splice trio 0).identities 1 ≡ none)
splice-survivor_example =
    splice-survivor trio 0 2 2 trio-IsConsistent (omega arith) (λ e. omega arith) refl

apply_quota-deadline_example : deadline (apply_quota trio (some 1) exhausted_daily 70).rot 1 ≡ 500
unfolding reset_deadline
apply_quota-deadline_example =
    apply_quota-deadline trio 1 1 exhausted_daily 70 1 trio-IsConsistent (omega arith)
      (held_by 1 (omega arith))

-- Account 0 is being asked about; account 1 goes, another one comes, the status call about account 2
-- ends, and account 0 is refused again.
abbrev meanwhile : List Call
meanwhile =
    removes 1
    ∷ adds (codes "k9")
    ∷ (finish_refresh (some 2) (some exhausted_daily) 70
        ++ (reports (some 0) 0 (some forbidden) 71 72 ∷ []))

refresh_quota_once_example :
    let q : Pool = record trio { busy = true ∷ false ∷ false ∷ [] } in
    refresh_quota (run q meanwhile) (some 0) 73 ≡ (false, run q meanwhile)
unfolding refresh_quota index_locked
refresh_quota_once_example =
    refresh_quota_once trio (record trio { busy = true ∷ false ∷ false ∷ [] }) 0 0 70 73 meanwhile
      trio-IsConsistent refl refl (tt, (tt, (tt, (tt, ((λ e. ground (arith, e)), (tt, tt))))))

next_warm_example :
    (idx : ℕ) × ((next trio 85).0 ≡ get_elem? trio.entries idx)
    × (idx < 3)
    × (deadline trio.rot idx ≤ 85)
next_warm_example = next_warm trio 85 2 trio-IsConsistent (omega arith) (omega arith)
