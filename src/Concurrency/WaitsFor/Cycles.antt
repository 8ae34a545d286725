-- ===== src/Concurrency/WaitsFor/Cycles.antt =====
-- The search of `dfs` ends, and a cycle that it reports is there.
use lab.Common.{
  ℕ, zero, suc, ◌≤◌, ◌<◌, ◌≡◌, ◌⊎◌, inl, inr, refl, sym, subst, ◌∙◌, Bool, true, false, ◌||◌,
  Option, some, List, [], ◌∷◌, arith, ◌==◌, if◌then◌else◌, remove, contains, lookup-insert,
  contains-remove_self, contains-remove_ne, Bool-cases,
}
use lab.Concurrency.Transaction.{emplace}
use lab.Concurrency.WaitsFor.{Graph, next_nodes}
use lab.Concurrency.WaitsFor.Search.{
  Search, sort, visit, enter, leave, dfs, contains-sort, Reaches, edge, further, Cycle, SameEdges,
}

-- The transactions that are not active.
unfoldable pub room : List ℕ → List ℕ → ℕ
room [] active = 0
room (u ∷ us) active = let rest = room us active in if contains u active then rest else suc rest

room_ext : (us a b : List ℕ) → ((u : ℕ) → contains u a ≡ contains u b) → room us a ≡ room us b
unfolding room
room_ext [] a b h = refl
room_ext (u ∷ us) a b h = ground (arith, h u, room_ext us a b h)

room_le :
    (us a b : List ℕ)
    → ((u : ℕ) → contains u a ≡ true → contains u b ≡ true)
    → room us b ≤ room us a
unfolding room
room_le [] a b h = omega arith
room_le (u ∷ us) a b h = ground (arith, h u, room_le us a b h)

room_less :
    (us a b : List ℕ) (t : ℕ)
    → ((u : ℕ) → contains u a ≡ true → contains u b ≡ true)
    → contains t us ≡ true
    → contains t a ≡ false
    → contains t b ≡ true
    → room us b < room us a
unfolding room contains
room_less [] a b t h k m n = ground arith
room_less (u ∷ us) a b t h k m n = elim (Bool-cases (t == u)) [
  | inl here ↦ ground (arith, h u, room_le us a b h)
  | inr apart ↦ ground (arith, h u, room_less us a b t h (ground arith) m n)
]

contains-emplace : (u t : ℕ) (ts : List ℕ) → contains u (emplace t ts) ≡ ((u == t) || contains u ts)
unfolding emplace contains
contains-emplace u t ts = ground (arith, Bool-cases (contains t ts), Bool-cases (u == t))

contains-remove :
    (u t : ℕ) (ts : List ℕ) → contains u (remove t ts) ≡ (if u == t then false else contains u ts)
contains-remove u t ts = elim (Bool-cases (u == t)) [
  | inl here ↦ ground (arith, contains-remove_self t ts)
  | inr apart ↦ ground (arith, contains-remove_ne u t ts (ground arith))
]

enter-SameEdges : (s : Search) (t : ℕ) → SameEdges (enter s t).waits_for s.waits_for
unfolding enter next_nodes
enter-SameEdges s t a b = ground (
  arith,
  lookup-insert t a (sort (next_nodes s.waits_for t)) s.waits_for,
  contains-sort b (next_nodes s.waits_for t),
)

edge_at : (g : Graph) {a t u : ℕ} → a ≡ t → contains u (next_nodes g t) ≡ true → Reaches g a u
edge_at g {a} {t} {u} e h = edge (subst (λ x. contains u (next_nodes g x) ≡ true) (sym e) h)

-- `nodes` are all the transactions of the graph `g`.
module _ (g : Graph) (nodes : List ℕ)
    (closed : (a b : ℕ) → contains b (next_nodes g a) ≡ true → contains b nodes ≡ true) where
  -- Before a call of `dfs` on `t`: every active transaction waits for `t`, which is not active.
  pub record Ready (s : Search) (t : ℕ) : Type 0 where
    pub same_edges : SameEdges s.waits_for g
    pub wait : (a : ℕ) → contains a s.active_set ≡ true → Reaches g a t
    pub inactive : contains t s.active_set ≡ false
    pub known : contains t nodes ≡ true

  -- What an answer says: there is a cycle, or the edges and the active transactions are as before.
  pub record Answer (s s' : Search) (found : Bool) : Type 0 where
    pub cycle : found ≡ true → Cycle g
    pub same_edges : found ≡ false → SameEdges s'.waits_for g
    pub same_active : found ≡ false → (a : ℕ) → contains a s'.active_set ≡ contains a s.active_set

  abbrev Answers : (Search → ℕ → Option (Search × Bool)) → Search → ℕ → Type 0
  Answers f s t = (s' : Search) × (found : Bool) × (f s t ≡ some (s', found)) × Answer s s' found

  module _ (recurse : Search → ℕ → Option (Search × Bool)) (fuel : ℕ)
      (answers : (s : Search) (t : ℕ)
        → Ready s t
        → room nodes s.active_set < fuel
        → Answers recurse s t)
      (t : ℕ) where
    visit_lem :
        (s : Search) (ts : List ℕ)
        → SameEdges s.waits_for g
        → ((a : ℕ) → contains a s.active_set ≡ true → (a ≡ t) ⊎ Reaches g a t)
        → ((b : ℕ) → contains b ts ≡ true → contains b (next_nodes g t) ≡ true)
        → room nodes s.active_set < fuel
        → (s' : Search) × (found : Bool) × (visit recurse s ts ≡ some (s', found))
          × Answer s s' found
    unfolding visit contains
    visit_lem s [] same wait next f = (
      s,
      false,
      refl,
      record { cycle = λ h. ground arith; same_edges = λ h. same; same_active = λ h a. refl },
    )
    visit_lem s (u ∷ us) same wait next f =
        let to_u : contains u (next_nodes g t) ≡ true = next u (ground arith) in
        elim (Bool-cases (contains u s.active_set)) [
          | inl active ↦ (
            s,
            true,
            ground arith,
            record {
              cycle = λ h. elim (wait u active) [
                | inl e ↦ (u, edge_at g e to_u)
                | inr r ↦ (u, further r to_u)
              ];
              same_edges = λ h. ground arith;
              same_active = λ h a. ground arith;
            },
          )
          | inr inactive ↦
              let (s1, found, e, k) =
                answers s u
                  (record {
                    same_edges = same;
                    wait = λ a h. elim (wait a h) [
                      | inl e ↦ edge_at g e to_u
                      | inr r ↦ further r to_u
                    ];
                    inactive = inactive;
                    known = closed t u to_u;
                  })
                  f in
              elim (Bool-cases found) [
                | inl hit ↦ (
                  s1,
                  true,
                  ground (arith, e),
                  record {
                    cycle = λ h. k.cycle hit;
                    same_edges = λ h. ground arith;
                    same_active = λ h a. ground arith;
                  },
                )
                | inr miss ↦
                    let (s2, found2, e2, k2) =
                      visit_lem s1 us (k.same_edges miss)
                        (λ a h. wait a (sym (k.same_active miss a) ∙ h))
                        (λ b h. next b (ground arith))
                        (rw (room_ext nodes s1.active_set s.active_set (k.same_active miss)) f) in
                    (
                      s2,
                      found2,
                      ground (arith, e, e2),
                      record {
                        cycle = k2.cycle;
                        same_edges = k2.same_edges;
                        same_active = λ h a. k2.same_active h a ∙ k.same_active miss a;
                      },
                    )
              ]
        ]

  entered_active :
      (s : Search) (t a : ℕ)
      → contains a (enter s t).active_set ≡ ((a == t) || contains a s.active_set)
  unfolding enter
  entered_active s t a = contains-emplace a t s.active_set

  module _ (s : Search) (t : ℕ) (r : Ready s t) where
    entered_edges : SameEdges (enter s t).waits_for g
    entered_edges a b = enter-SameEdges s t a b ∙ r.same_edges a b

    entered_wait : (a : ℕ) → contains a (enter s t).active_set ≡ true → (a ≡ t) ⊎ Reaches g a t
    entered_wait a h = elim (Bool-cases (a == t)) [
      | inl here ↦ inl (ground arith)
      | inr apart ↦ inr (r.wait a (ground (arith, entered_active s t a)))
    ]

    entered_room :
        (fuel : ℕ) → room nodes s.active_set < suc fuel → room nodes (enter s t).active_set < fuel
    entered_room fuel f =
        let less =
          room_less nodes s.active_set (enter s t).active_set t
            (λ u h. ground (arith, entered_active s t u)) r.known r.inactive
            (ground (arith, entered_active s t t)) in
        omega (arith, less)

    left_active :
        (s1 : Search)
        → ((a : ℕ) → contains a s1.active_set ≡ contains a (enter s t).active_set)
        → (a : ℕ) → contains a (leave s1 t).active_set ≡ contains a s.active_set
    unfolding leave
    left_active s1 h a =
        ground (arith, h a, entered_active s t a, contains-remove a t s1.active_set, r.inactive)

  -- Where every active transaction waits for `t`, which is in the graph and not active, `dfs` with more
  -- fuel than there are transactions that are not active ends; if it answers true, some transactions
  -- wait for each other in a cycle, and if not, it leaves the edges and the active transactions as
  -- they were.
  pub dfs-Answer :
      (fuel : ℕ) (s : Search) (t : ℕ)
      → Ready s t
      → room nodes s.active_set < fuel
      → (s' : Search) × (found : Bool) × (dfs fuel s t ≡ some (s', found)) × Answer s s' found
  unfolding dfs
  dfs-Answer zero s t r f = absurd (omega arith)
  dfs-Answer (suc fuel) s t r f = elim (Bool-cases (contains t s.safe_set)) [
    | inl safe ↦ (
      s,
      false,
      ground arith,
      record {
        cycle = λ h. ground arith;
        same_edges = λ h. r.same_edges;
        same_active = λ h a. refl;
      },
    )
    | inr unsafe ↦
        let entered = enter s t in
        let (s1, found, e, k) =
          visit_lem (dfs fuel) fuel (dfs-Answer fuel) t entered (next_nodes entered.waits_for t)
            (entered_edges s t r) (entered_wait s t r) (λ b h. sym (entered_edges s t r t b) ∙ h)
            (entered_room s t r fuel f) in
        elim (Bool-cases found) [
          | inl hit ↦ (
            s1,
            true,
            ground (arith, e),
            record {
              cycle = λ h. k.cycle hit;
              same_edges = λ h. ground arith;
              same_active = λ h a. ground arith;
            },
          )
          | inr miss ↦ (
            leave s1 t,
            false,
            ground (arith, e),
            record {
              cycle = λ h. ground arith;
              same_edges = λ h. k.same_edges miss;
              same_active = λ h. left_active s t r s1 (k.same_active miss);
            },
          )
        ]
  ]
