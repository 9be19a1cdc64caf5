-- ===== src/Egress/Rotation.antt =====
-- internal/devin/egress.go: a route that is known to be broken is not used while another one works.
use devin2proxy.Prelude.{
  ℕ, zero, suc, ◌+◌, ◌≤◌, ◌<◌, ◌≡◌, ◌≢◌, refl, sym, ap, ◌∙◌, subst, true, some, inl, inr, List, [],
  ◌∷◌, ◌==◌, length, get_elem?, get_or, arith, Bool-cases, Option-cases, get_or-set_self,
  get_or-set_ne, length-set,
}
use devin2proxy.Errors.{GoError}
use devin2proxy.Rotate
use devin2proxy.Rotate.{RotationCursor, deadline, wrap_next, cool_off}
use devin2proxy.Rotate.Pick.{Picked, Choice, first, soonest, pick-Picked, wrap_next-cooling}
use devin2proxy.Egress.Routes.{
  Egress, EgressPool, cool_egress, index_of, cool_route, next_route, route_of_pick, next, report,
  is_broken,
}

-- A slot for each route, and no address twice.
pub record IsRouted (p : EgressPool) : Type 0 where
  pub slots : length p.rot.cooling ≡ length p.list
  pub distinct :
      (i j : ℕ) (e : Egress) (f : Egress)
      → get_elem? p.list i ≡ some e
      → get_elem? p.list j ≡ some f
      → e.address ≡ f.address
      → i ≡ j

index_of-some :
    (list : List Egress) (e : Egress) (k : ℕ)
    → index_of list e ≡ some k
    → (f : Egress) × (get_elem? list k ≡ some f) × (f.address ≡ e.address) × (k < length list)
unfolding index_of
index_of-some [] e k h = absurd (ground (arith, h))
index_of-some (c ∷ list) e k h = elim (Bool-cases (c.address == e.address)) [
  | inl here ↦
      let first : zero ≡ k = ground (arith, h, here) in
      subst
        (λ n.
          (f : Egress) × (get_elem? (c ∷ list) n ≡ some f)
          × (f.address ≡ e.address)
          × (n < suc (length list)))
        first (c, refl, ground (arith, here), omega arith)
  | inr other ↦ elim (Option-cases (index_of list e)) [
    | inl gone ↦ absurd (ground (arith, h, other, gone))
    | inr (i, there) ↦
        let next : suc i ≡ k = ground (arith, h, other, there) in
        let (f, at, same, inside) = index_of-some list e i there in
        subst
          (λ n.
            (f : Egress) × (get_elem? (c ∷ list) n ≡ some f)
            × (f.address ≡ e.address)
            × (n < suc (length list)))
          next (f, at, same, omega arith)
  ]
]

-- A warm slot makes `pick` answer a warm one.
pick_warm :
    (c : RotationCursor) (now i : ℕ)
    → i < length c.cooling
    → deadline c i ≤ now
    → (idx : ℕ) × (idx < length c.cooling)
      × (deadline c idx ≤ now)
      × ((rot : RotationCursor) × (Rotate.pick c now ≡ (some idx, rot)))
pick_warm c now i inside warm = of_picked (pick-Picked c now (omega arith))
  where
    same : (k : ℕ) → deadline (wrap_next c) k ≡ deadline c k
    same k = ap (λ ts. get_or ts k 0) (wrap_next-cooling c)

    of_choice : (idx : ℕ) → Choice (wrap_next c) now idx → deadline c idx ≤ now
    of_choice idx (first k hk e w before) = omega (arith, same idx)
    of_choice idx (soonest all least) =
        absurd (omega (arith, all i (ground (arith, inside, wrap_next-cooling c)), same i))

    of_picked :
        Picked (wrap_next c) now (Rotate.pick c now)
        → (idx : ℕ) × (idx < length c.cooling)
          × (deadline c idx ≤ now)
          × ((rot : RotationCursor) × (Rotate.pick c now ≡ (some idx, rot)))
    of_picked s = (
      s.idx,
      ground (arith, s.in_range, wrap_next-cooling c),
      of_choice s.idx s.choice,
      (_, s.result),
    )

cool_off-deadline :
    (c : RotationCursor) (k now until : ℕ)
    → k < length c.cooling
    → until ≤ deadline (cool_off c k now until).1 k
unfolding cool_off
cool_off-deadline c k now until inside = ground (arith, get_or-set_self c.cooling k until 0 inside)

cool_off_other :
    (c : RotationCursor) (k i now until : ℕ)
    → k ≢ i
    → deadline (cool_off c k now until).1 i ≡ deadline c i
unfolding cool_off
cool_off_other c k i now until other = ground (arith, get_or-set_ne c.cooling k i until 0 other)

length-cool_off :
    (c : RotationCursor) (k now until : ℕ)
    → length (cool_off c k now until).1.cooling ≡ length c.cooling
unfolding cool_off
length-cool_off c k now until = ground (arith, length-set c.cooling k until)

next_route-some :
    (p : EgressPool) (now idx : ℕ) (rot : RotationCursor) (f : Egress)
    → 0 < length p.list
    → get_elem? p.list idx ≡ some f
    → Rotate.pick p.rot now ≡ (some idx, rot)
    → (next_route p now).0 ≡ some f
unfolding next_route route_of_pick
next_route-some p now idx rot f some_left at picked = elim (Bool-cases (length p.list == 0)) [
  | inl empty ↦ absurd (ground (arith, some_left, empty))
  | inr full ↦ rw full (rw (picked, route_of_pick) at)
]

listed_at :
    (list : List Egress) (i : ℕ) → i < length list → (f : Egress) × (get_elem? list i ≡ some f)
listed_at [] i h = absurd (omega arith)
listed_at (c ∷ list) zero h = (c, refl)
listed_at (c ∷ list) (suc i) h = listed_at list i (omega arith)

module _ (p : EgressPool) (v : IsRouted p) (e : Egress) (err : GoError) (now now' k : ℕ) where
  module _ (listed : index_of p.list e ≡ some k) (confirmed : is_broken err ≡ true)
      (soon : now' < now + cool_egress) where
    report-cools :
        report (some p) (some e) (some err) now
        ≡ some (record p { rot = (cool_off p.rot k now (now + cool_egress)).1 })
    unfolding report cool_route
    report-cools = rw confirmed (rw (listed, cool_route) refl)

    -- In a well-formed pool, once a route of it was reported as broken, another address is handed out
    -- at any time in the five minutes behind that at which some other route is warm.
    pub next-report :
        (i : ℕ)
        → i ≢ k
        → i < length p.list
        → deadline p.rot i ≤ now'
        → (f : Egress) × ((next (report (some p) (some e) (some err) now) now').0 ≡ some f)
          × (f.address ≢ e.address)
    unfolding next
    next-report i other inside warm =
        let (g, at_k, same, k_inside) = index_of-some p.list e k listed in
        let rot = (cool_off p.rot k now (now + cool_egress)).1 in
        let size = length-cool_off p.rot k now (now + cool_egress) in
        let (idx, idx_inside, idx_warm, (rot', picked)) =
          pick_warm rot now' i (ground (arith, size, v.slots, inside)) (
            ground (
              arith,
              warm,
              cool_off_other p.rot k i now (now + cool_egress) (λ eq. other (sym eq)),
            )) in
        let cools =
          cool_off-deadline p.rot k now (now + cool_egress) (ground (arith, v.slots, k_inside)) in
        let (f, at_idx) = listed_at p.list idx (ground (arith, idx_inside, size, v.slots)) in
        (
          f,
          ap (λ q. (next q now').0) report-cools
              ∙ next_route-some (record p { rot = rot }) now' idx rot' f (omega arith) at_idx
                  picked,
          λ eq.
              let here : idx ≡ k = v.distinct idx k f g at_idx at_k (eq ∙ sym same) in
              let late : deadline rot idx ≡ deadline rot k = ap (deadline rot) here in
              absurd (omega arith),
        )
