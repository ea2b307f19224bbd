-- ===== src/SharedMemory/NextId.antt =====
-- `getNextId` of src/sharedMemory.cpp: the search for an id that no shared memory has.
use shared_object.Prelude.{
  ℕ, zero, suc, ◌+◌, ◌-◌, ◌%◌, ◌^◌, ◌≤◌, ◌<◌, String, ◌≡◌, ◌∙◌, sym, subst, refl, Bool, true, false,
  none, some, ◌==◌, if◌then◌else◌, arith, Bool-cases, inl, inr, all_keys_in_use, null_dereference,
  unterminated, Result, ok, threw, aborted, Exec, ==_iff,
}
use shared_object.Os.{Os, Counting}
use shared_object.SharedObjectClass.Methods.{has_shared_memory}
use shared_object.SharedMemory.{Process}
use shared_object.SharedMemory.Keys.{to_string, get_key}

module _ (os : Os) where
  -- The do-while loop, on fuel. `last` is the address of the counter; uint64_t wraps.
  unfoldable pub search_id : ℕ → ℕ → os.Address → Exec os.World String
  search_id zero initial last w = (aborted unterminated, w)
  search_id (suc fuel) initial last w =
      let id = (os.load_64 last w + 1) % 2 ^ 64 in
      let probe = has_shared_memory os (get_key os (to_string id)) (os.store_64 last id w) in
      let rest = search_id fuel initial last probe.1 in
      if probe.0
      then (if id == initial then (threw all_keys_in_use, probe.1) else rest)
      else (ok (to_string id), probe.1)

  -- Fuel for every uint64_t once.
  unfoldable pub get_next_id : Exec (Process os) String
  get_next_id p = elim p.last_id [
    | none ↦ (aborted null_dereference, p)
    | some last ↦
        let found = search_id (2 ^ 64) (os.load_64 last p.world) last p.world in
        (found.0, record p { world = found.1 })
  ]

module _ (os : Os) (co : Counting os) where
  -- Whether an id is in use, as the search sees it.
  abbrev pub used : os.World → ℕ → Bool
  used w id = (has_shared_memory os (get_key os (to_string id)) w).0

  pub probe_keeps : (key : String) (w : os.World) → (has_shared_memory os key w).1 ≡ w
  unfolding has_shared_memory
  probe_keeps key w = grind (arith, co.close-open)

  probe-store :
      (key : String) (a : os.Address) (v : ℕ) (w : os.World)
      → (has_shared_memory os key (os.store_64 a v w)).0 ≡ (has_shared_memory os key w).0
  unfolding has_shared_memory
  probe-store key a v w = ground (arith, co.open-store_none key a v w)

  -- What the search has to find from the counter `start`: the first id after it, cyclically, that is
  -- not in use, left in the counter; it gives up only where all are in use.
  abbrev pub Found : os.World → ℕ → os.Address → Result String → os.World → Type 0
  Found w start last (ok name) w' =
      (d : ℕ) × (1 ≤ d)
      × (d ≤ 2 ^ 64)
      × (name ≡ to_string ((start + d) % 2 ^ 64))
      × (used w ((start + d) % 2 ^ 64) ≡ false)
      × ((e : ℕ) → 1 ≤ e → e < d → used w ((start + e) % 2 ^ 64) ≡ true)
      × (os.load_64 last w' ≡ (start + d) % 2 ^ 64)
  Found w start last (threw e) w' =
      (e ≡ all_keys_in_use) × ((id : ℕ) → id < 2 ^ 64 → used w id ≡ true)
  Found w start last (aborted x) w' = ⊥

  -- One round, by what the probe says of the next id.
  search_id-step :
      (fuel initial : ℕ) (last : os.Address) (w : os.World) (id : ℕ)
      → id ≡ (os.load_64 last w + 1) % 2 ^ 64
      → search_id os (suc fuel) initial last w ≡ (
          if used w id
          then (if id == initial
              then (threw all_keys_in_use, os.store_64 last id w)
              else search_id os fuel initial last (os.store_64 last id w))
          else (ok (to_string id), os.store_64 last id w))
  unfolding search_id
  search_id-step fuel initial last w id e = rw (← e, probe_keeps, probe-store) (ground arith)

  module _ (w₀ : os.World) (start : ℕ) (last : os.Address) (in_range : start < 2 ^ 64) where
    -- The loop from the `d`-th id after the start, all before it in use.
    search_id-Found :
        (fuel d : ℕ) (w : os.World)
        → d + fuel ≡ 2 ^ 64
        → d < 2 ^ 64
        → os.load_64 last w ≡ (start + d) % 2 ^ 64
        → ((id : ℕ) → used w id ≡ used w₀ id)
        → ((e : ℕ) → 1 ≤ e → e ≤ d → used w₀ ((start + e) % 2 ^ 64) ≡ true)
        → Found w₀ start last (search_id os fuel start last w).0 (search_id os fuel start last w).1
    search_id-Found zero d w total below here same before = absurd (omega arith)
    search_id-Found (suc fuel) d w total below here same before =
        rw (search_id-step fuel start last w id now) (elim (Bool-cases (used w id)) [
          | inr free ↦ rw free (
            suc d,
            omega arith,
            omega arith,
            refl,
            sym (same id) ∙ free,
            λ e lo hi. before e lo (omega arith),
            co.load-store last id w (omega arith),
          )
          | inl taken ↦ elim (Bool-cases (id == start)) [
            | inl around ↦ rw (taken, around) (refl, every taken (ground arith))
            | inr more ↦
                rw (taken, more)
                  (search_id-Found fuel (suc d) (os.store_64 last id w) (omega arith) (ground arith)
                    (co.load-store last id w (omega arith)) (λ k. probe-store _ last id w ∙ same k)
                    (upto taken))
          ]
        ])
      where
        id : ℕ
        id = (start + suc d) % 2 ^ 64

        now : id ≡ (os.load_64 last w + 1) % 2 ^ 64
        now = omega arith

        upto :
            used w id ≡ true → (e : ℕ) → 1 ≤ e → e ≤ suc d → used w₀ ((start + e) % 2 ^ 64) ≡ true
        upto taken e lo hi = elim (Bool-cases (e == suc d)) [
          | inl last_one ↦ rw ((==_iff e (suc d)).0 last_one) (sym (same id) ∙ taken)
          | inr earlier ↦ before e lo (ground arith)
        ]

        -- the way round from `start` to `k`
        way : ℕ → ℕ
        way k = (k + 2 ^ 64 - start - 1) % 2 ^ 64 + 1

        every : used w id ≡ true → suc d ≡ 2 ^ 64 → (k : ℕ) → k < 2 ^ 64 → used w₀ k ≡ true
        every taken full k hk =
            subst (λ n. used w₀ n ≡ true) (let e : (start + way k) % 2 ^ 64 ≡ k = omega arith in e)
              (upto taken (way k) (omega arith) (omega arith))

  search_from : os.Address → Process os → Result String × os.World
  search_from last p = search_id os (2 ^ 64) (os.load_64 last p.world) last p.world

  get_next_id-search :
      (p : Process os) (last : os.Address)
      → p.last_id ≡ some last
      → get_next_id os p ≡ ((search_from last p).0, record p { world = (search_from last p).1 })
  unfolding get_next_id search_from
  get_next_id-search p last e = ground arith

  -- With a counter the search ends, whatever is in use: it gives the first id after the counter,
  -- cyclically, that is not in use, and leaves the counter there, or it throws and every id is in
  -- use.
  pub get_next_id-Found :
      (p : Process os) (last : os.Address)
      → p.last_id ≡ some last
      → Found p.world (os.load_64 last p.world) last (get_next_id os p).0 (get_next_id os p).1.world
  unfolding search_from
  get_next_id-Found p last e = rw (get_next_id-search p last e) (
      search_id-Found p.world (os.load_64 last p.world) last (co.load-lt last p.world) (2 ^ 64) 0
        p.world (omega arith) (omega arith) (omega (arith, co.load-lt last p.world)) (λ id. refl)
        (λ e lo hi. absurd (omega arith)))
