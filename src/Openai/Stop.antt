-- ===== src/Openai/Stop.antt =====
-- internal/openai/translate.go: the stop filter, over the bytes of a string.
pub mod Search
pub mod Reference
pub mod Chunks
mod Examples
use devin2proxy.Prelude.{
  ℕ, zero, suc, ◌+◌, ◌-◌, ◌≤◌, ◌<◌, Bool, true, false, not, ◌&&◌, ◌||◌, Option, none, some, List,
  [], ◌∷◌, ◌++◌, Bytes, ltb, leb, ◌==◌, if◌then◌else◌, length, get_or, take, drop, index, bit_and,
}

pub record StopFilter : Type 0 where
  pub stops : List Bytes
  pub longest : ℕ
  pub pending : Bytes
  pub stopped : Bool

unfoldable pub longest_of : List Bytes → ℕ → ℕ
longest_of [] longest = longest
longest_of (s ∷ stops) longest =
    longest_of stops (if ltb longest (length s) then length s else longest)

unfoldable pub new_stop_filter : List Bytes → StopFilter
new_stop_filter stops = record {
  stops = stops;
  longest = longest_of stops 0;
  pending = [];
  stopped = false;
}

-- `indexOfStop` without the stop itself, which no caller uses; `none` is -1.
abbrev pub earlier : Option ℕ → Option ℕ → Option ℕ
earlier best none = best
earlier none (some i) = some i
earlier (some b) (some i) = if ltb i b then some i else some b

unfoldable pub index_of_stop_from : List Bytes → Bytes → Option ℕ → Option ℕ
index_of_stop_from [] pending best = best
index_of_stop_from (s ∷ stops) pending best =
    index_of_stop_from stops pending (earlier best (index pending s))

unfoldable pub index_of_stop : StopFilter → Option ℕ
index_of_stop f = index_of_stop_from f.stops f.pending none

-- `utf8.RuneStart`
abbrev pub rune_start : ℕ → Bool
rune_start b = not (bit_and b 0xc0 == 0x80)

-- The loop that backs the cut up to the start of a rune.
unfoldable pub align_cut : Bytes → ℕ → ℕ
align_cut pending zero = zero
align_cut pending (suc cut) =
    let rest = align_cut pending cut in
    if ltb (suc cut) (length pending) && not (rune_start (get_or pending (suc cut) 0))
    then rest
    else suc cut

unfoldable pub hold_back : StopFilter → Bytes × StopFilter
hold_back f =
    let longest_held = f.longest - 1 in
    let keep = if ltb (length f.pending) longest_held then length f.pending else longest_held in
    let cut = align_cut f.pending (length f.pending - keep) in
    (take cut f.pending, record f { pending = drop cut f.pending })

unfoldable pub emit_pending : StopFilter → Bytes × StopFilter
emit_pending f = elim (index_of_stop f) [
  | some i ↦ (take i f.pending, record f { pending = []; stopped = true })
  | none ↦ hold_back f
]

abbrev pub no_stops : List Bytes → Bool
no_stops [] = true
no_stops (s ∷ stops) = false

unfoldable pub write : StopFilter → Bytes → Bytes × StopFilter
write f s =
    if no_stops f.stops
    then (s, f)
    else if f.stopped
    then ([], f)
    else emit_pending (record f { pending = f.pending ++ s })

unfoldable pub flush : StopFilter → Bytes × StopFilter
flush f = if f.stopped then ([], f) else (f.pending, record f { pending = [] })
