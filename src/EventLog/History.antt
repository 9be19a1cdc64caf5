-- ===== src/EventLog/History.antt =====
-- internal/eventlog/eventlog.go: the ring holds the last events, in the order of their arrival.
use devin2proxy.Prelude.{
  ℕ, zero, suc, ◌+◌, ◌-◌, ◌%◌, ◌≤◌, ◌<◌, ◌≡◌, ◌≢◌, refl, sym, ap, ◌∙◌, subst, inl, inr, List, [],
  ◌∷◌, ◌++◌, ltb, if◌then◌else◌, length, get_or, set, get_or-set_ne, get_or-set_self, length-set,
  length-append, length-replicate, drop, arith,
}
use native.Mathlib.Nat.{mod-eq_of_lt, add-zero, zero-add}
use native.Mathlib.Decide.{dec_lt}
use mathlib.Core.Logic.{◌⊎◌}
use devin2proxy.Rotate.Walk.{mod-eq-sub}
use devin2proxy.EventLog.{Event, Hub, zero_event, new_hub, stamp, put, emit, recent_from, recent}

pub record HubWf (h : Hub) : Type 0 where
  pub some_room : 1 ≤ h.capacity
  pub ring_length : length h.ring ≡ h.capacity
  pub start_inside : h.start < h.capacity
  pub count_inside : h.count ≤ h.capacity
  pub unwrapped : h.count < h.capacity → h.start ≡ 0

-- The specification: append, and drop the oldest once there are more than the capacity.
unfoldable pub keep_last : ℕ → List Event → List Event
keep_last capacity events = drop (length events - capacity) events

-- A position in the ring that has gone round at most once.
wrap : (n a : ℕ) → a < n + n → ((a < n) × (a % n ≡ a)) ⊎ ((n ≤ a) × (a % n ≡ a - n))
wrap n a h = elim (dec_lt a n) [
  | yes below ↦ inl (below, mod-eq_of_lt below)
  | no above ↦ inr (omega arith, mod-eq-sub a n (omega arith) h)
]

last_slot : (n s : ℕ) → s < n → ((s + 1) % n + (n - 1)) % n ≡ s
last_slot n s h =
    let first = wrap n (s + 1) (omega arith) in
    let second = wrap n ((s + 1) % n + (n - 1)) (ground (arith, first)) in
    ground (arith, first, second)

next_slot : (n s j : ℕ) → s < n → suc j < n → ((s + 1) % n + j) % n ≡ (s + (1 + j)) % n
next_slot n s j h hj =
    let first = wrap n (s + 1) (omega arith) in
    let second = wrap n ((s + 1) % n + j) (ground (arith, first)) in
    let third = wrap n (s + (1 + j)) (omega arith) in ground (arith, first, second, third)

other_slot : (n s j : ℕ) → s < n → 1 ≤ j → j < n → (s + j) % n ≢ s
other_slot n s j h h1 hj = let there = wrap n (s + j) (omega arith) in ground (arith, there)

abbrev slot_at : Hub → ℕ → Event
slot_at h i = get_or h.ring ((h.start + i) % h.capacity) zero_event

recent_from-eq :
    (h h' : Hub) (left i i' : ℕ)
    → ((j : ℕ) → j < left → slot_at h' (i' + j) ≡ slot_at h (i + j))
    → recent_from h' left i' ≡ recent_from h left i
unfolding recent_from
recent_from-eq h h' zero i i' same = refl
recent_from-eq h h' (suc left) i i' same =
    let first : slot_at h' i' ≡ slot_at h i =
      ap (slot_at h') (sym (add-zero i')) ∙ same 0 (omega arith) ∙ ap (slot_at h) (add-zero i) in
    let rest = recent_from-eq h h' left (i + 1) (i' + 1) (λ j below.
      let there : i' + 1 + j ≡ i' + suc j = omega arith in
      let here : i + suc j ≡ i + 1 + j = omega arith in
      ap (slot_at h') there ∙ same (suc j) (omega arith) ∙ ap (slot_at h) here) in
    λ k. first k ∷ rest k

recent_from_end :
    (h : Hub) (left i : ℕ)
    → recent_from h (suc left) i ≡ recent_from h left i ++ (slot_at h (i + left) ∷ [])
unfolding recent_from
recent_from_end h zero i = ap (λ n. slot_at h n ∷ []) (sym (add-zero i))
recent_from_end h (suc left) i =
    let place : i + 1 + left ≡ i + suc left = omega arith in
    ap (λ t. slot_at h i ∷ t)
      (recent_from_end h left (i + 1)
        ∙ ap (λ n. recent_from h left (i + 1) ++ (slot_at h n ∷ [])) place)

length-recent_from : (h : Hub) (left i : ℕ) → length (recent_from h left i) ≡ left
unfolding recent_from
length-recent_from h zero i = refl
length-recent_from h (suc left) i = ap suc (length-recent_from h left (i + 1))

length-recent : (h : Hub) → length (recent h) ≡ h.count
unfolding recent
length-recent h = length-recent_from h h.count 0

abbrev room_put : Hub → Event → Hub
room_put h e = record h {
  ring = set h.ring ((h.start + h.count) % h.capacity) e;
  count = h.count + 1;
}

abbrev full_put : Hub → Event → Hub
full_put h e = record h { ring = set h.ring h.start e; start = (h.start + 1) % h.capacity }

put_room : (h : Hub) (e : Event) → h.count < h.capacity → put h e ≡ room_put h e
unfolding put
put_room h e room = ground arith

put_full : (h : Hub) (e : Event) → h.capacity ≤ h.count → put h e ≡ full_put h e
unfolding put
put_full h e full = ground arith

module _ (h : Hub) (wf : HubWf h) (e : Event) where
  open_slot : h.count < h.capacity → (j : ℕ) → j ≤ h.count → (h.start + (0 + j)) % h.capacity ≡ j
  open_slot room j below =
      let unwrapped = wf.unwrapped room in
      let there : h.start + (0 + j) ≡ j = omega arith in
      ap (λ n. n % h.capacity) there ∙ mod-eq_of_lt (omega arith)

  recent_room : h.count < h.capacity → recent (room_put h e) ≡ recent h ++ (e ∷ [])
  unfolding recent
  recent_room room =
      let h' = room_put h e in
      let one_more : h.count + 1 ≡ suc h.count = omega arith in
      let free : (h.start + h.count) % h.capacity ≡ h.count =
        ap (λ n. (h.start + n) % h.capacity) (sym (zero-add h.count))
        ∙ open_slot room h.count (omega arith) in
      let inside : (h.start + h.count) % h.capacity < length h.ring =
        omega (arith, wf.ring_length) in
      let kept = recent_from-eq h h' h.count 0 0 (λ j below.
        get_or-set_ne h.ring ((h.start + h.count) % h.capacity) ((h.start + (0 + j)) % h.capacity) e
          zero_event (omega (arith, open_slot room j (omega arith)))) in
      let last : slot_at h' (0 + h.count) ≡ e =
        ap (λ n. get_or h'.ring ((h.start + n) % h.capacity) zero_event) (zero-add h.count)
        ∙ get_or-set_self h.ring ((h.start + h.count) % h.capacity) e zero_event inside in
      ap (λ n. recent_from h' n 0) one_more
      ∙ recent_from_end h' h.count 0
      ∙ (λ k. kept k ++ (last k ∷ []))

  recent_full : h.count ≡ h.capacity → recent (full_put h e) ≡ drop 1 (recent h ++ (e ∷ []))
  unfolding recent recent_from
  recent_full full =
      let h' = full_put h e in
      let c = h.count - 1 in
      let room = wf.some_room in
      let start = wf.start_inside in
      let split : h.count ≡ suc c = omega arith in
      let kept = recent_from-eq h h' c 1 0 (λ j below.
        let there : ((h.start + 1) % h.capacity + (0 + j)) % h.capacity
            ≡ (h.start + (1 + j)) % h.capacity =
          ap (λ n. ((h.start + 1) % h.capacity + n) % h.capacity) (zero-add j)
          ∙ next_slot h.capacity h.start j start (omega arith) in
        ap (λ n. get_or h'.ring n zero_event) there
        ∙ get_or-set_ne h.ring h.start ((h.start + (1 + j)) % h.capacity) e zero_event (λ same.
          other_slot h.capacity h.start (1 + j) start (omega arith) (omega arith) (sym same))) in
      let end : ((h.start + 1) % h.capacity + (0 + c)) % h.capacity ≡ h.start =
        ap (λ n. ((h.start + 1) % h.capacity + n) % h.capacity) (omega arith)
        ∙ last_slot h.capacity h.start start in
      let last : slot_at h' (0 + c) ≡ e =
        ap (λ n. get_or h'.ring n zero_event) end
        ∙ get_or-set_self h.ring h.start e zero_event (omega (arith, wf.ring_length)) in
      ap (λ n. recent_from h' n 0) split
      ∙ recent_from_end h' c 0
      ∙ (λ k. kept k ++ (last k ∷ []))
      ∙ ap (λ n. drop 1 (recent_from h n 0 ++ (e ∷ []))) (sym split)

-- `put` appends an event and keeps the last `capacity`.
recent-put :
    (h : Hub) (e : Event) → HubWf h → recent (put h e) ≡ keep_last h.capacity (recent h ++ (e ∷ []))
unfolding keep_last
recent-put h e wf =
    let size : length (recent h ++ (e ∷ [])) ≡ h.count + 1 =
      length-append (recent h) (e ∷ []) ∙ ap (λ n. n + 1) (length-recent h) in
    elim (dec_lt h.count h.capacity) [
      | yes room ↦
          let none_over : length (recent h ++ (e ∷ [])) - h.capacity ≡ 0 = omega arith in
          ap recent (put_room h e room)
          ∙ recent_room h wf e room
          ∙ ap (λ n. drop n (recent h ++ (e ∷ []))) (sym none_over)
      | no full ↦
          let inside = wf.count_inside in
          let one_over : length (recent h ++ (e ∷ [])) - h.capacity ≡ 1 = omega arith in
          ap recent (put_full h e (omega arith))
          ∙ recent_full h wf e (omega arith)
          ∙ ap (λ n. drop n (recent h ++ (e ∷ []))) (sym one_over)
    ]

put-HubWf : (h : Hub) (e : Event) → HubWf h → HubWf (put h e)
put-HubWf h e wf = elim (dec_lt h.count h.capacity) [
  | yes room ↦ subst HubWf (sym (put_room h e room)) (record {
    some_room = wf.some_room;
    ring_length = length-set h.ring ((h.start + h.count) % h.capacity) e ∙ wf.ring_length;
    start_inside = wf.start_inside;
    count_inside = omega arith;
    unwrapped = λ _. wf.unwrapped room;
  })
  | no full ↦
      let start = wf.start_inside in
      let inside = wf.count_inside in
      let next = wrap h.capacity (h.start + 1) (omega (arith, wf.some_room)) in
      subst HubWf (sym (put_full h e (omega arith))) (record {
        some_room = wf.some_room;
        ring_length = length-set h.ring h.start e ∙ wf.ring_length;
        start_inside = ground (arith, next, wf.some_room);
        count_inside = wf.count_inside;
        unwrapped = λ less. absurd (omega arith);
      })
]

numbered-HubWf : (h : Hub) → HubWf h → HubWf (record h { seq = h.seq + 1 })
numbered-HubWf h wf = record {
  some_room = wf.some_room;
  ring_length = wf.ring_length;
  start_inside = wf.start_inside;
  count_inside = wf.count_inside;
  unwrapped = wf.unwrapped;
}

pub new_hub-HubWf : (capacity : ℕ) → HubWf (new_hub capacity)
unfolding new_hub
new_hub-HubWf capacity =
    let size = if ltb capacity 1 then 1000 else capacity in
    let some : 1 ≤ size = ground arith in
    record {
      some_room = some;
      ring_length = length-replicate size zero_event;
      start_inside = some;
      count_inside = omega arith;
      unwrapped = λ _. refl;
    }

recent-numbered : (h : Hub) (n : ℕ) → recent (record h { seq = n }) ≡ recent h
unfolding recent
recent-numbered h n = recent_from-eq h (record h { seq = n }) h.count 0 0 (λ j _. refl)

-- On a well-formed hub `Emit` appends the stamped event to what `Recent` returns and drops the
-- oldest event if that is more than the capacity; the hub stays well-formed.
pub recent-emit :
    (h : Hub) (e : Event) (now : ℕ)
    → HubWf h
    → (recent (emit h e now) ≡ keep_last h.capacity (recent h ++ (stamp now (h.seq + 1) e ∷ [])))
      × HubWf (emit h e now)
unfolding emit
recent-emit h e now wf =
    let h' = record h { seq = h.seq + 1 } in
    let stamped = stamp now (h.seq + 1) e in
    let wf' = numbered-HubWf h wf in
    (
      recent-put h' stamped wf'
          ∙ ap (λ t. keep_last h.capacity (t ++ (stamped ∷ []))) (recent-numbered h (h.seq + 1)),
      put-HubWf h' stamped wf',
    )
