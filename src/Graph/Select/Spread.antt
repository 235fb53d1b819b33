-- ===== src/Graph/Select/Spread.antt =====
-- The breadth-first search of `Select`: with --downstream it marks exactly what can be reached
-- from the requested nodes, and it ends.
use terragraph.Prelude.{
  ℕ, zero, suc, ◌+◌, ◌≡◌, ◌≤◌, ◌<◌, ◌⊎◌, ◌↔◌, inl, inr, refl, ◌∙◌, arith, Bool, true, false, not,
  ◌&&◌, ◌||◌, Str, str_eq, str_eq_iff, str_eq_refl, List, [], ◌∷◌, contains, count, contains_iff,
  Bool-cases, count-append, contains-append, length, length-le_of_count, length-append, some,
}
use terragraph.Graph.{Graph, IsGraph}
use terragraph.Graph.Select.{Search, mark, offer, spread, closure}

-- The nodes that an edge path leads to from a seed.
pub data Reach (g : Graph) (seeds : List Str) : Str → Type 0 where
  seed : {n : Str} → contains n seeds ≡ true → Reach g seeds n
  next : {u n : Str} → Reach g seeds u → contains n (g.outs u) ≡ true → Reach g seeds n

marked-offer :
    (w : Str) (s : Search) (ns : List Str)
    → contains w (offer s ns).marked ≡ (contains w s.marked || contains w ns)
unfolding offer contains
marked-offer w s [] = ground arith
marked-offer w s (n ∷ ns) = marked-offer w (mark s n) ns ∙ one
  where
    one :
        (contains w (mark s n).marked || contains w ns)
        ≡ (contains w s.marked || (str_eq n w || contains w ns))
    one = unfold mark in ground (arith, contains-append w s.marked (n ∷ []), str_eq_iff n w)

pending-offer :
    (w : Str) (s : Search) (ns : List Str)
    → contains w (offer s ns).pending
      ≡ (contains w s.pending || contains w ns && not (contains w s.marked))
unfolding offer contains
pending-offer w s [] = ground arith
pending-offer w s (n ∷ ns) = pending-offer w (mark s n) ns ∙ one
  where
    one :
        (contains w (mark s n).pending || contains w ns && not (contains w (mark s n).marked))
        ≡ (contains w s.pending || (str_eq n w || contains w ns) && not (contains w s.marked))
    one =
        unfold mark in
        ground (
          arith,
          contains-append w s.marked (n ∷ []),
          contains-append w s.pending (n ∷ []),
          str_eq_iff n w,
        )

count-mark :
    (s : Search) (n : Str)
    → ((a : Str) → count a s.marked ≤ 1)
    → (a : Str) → count a (mark s n).marked ≤ 1
unfolding mark count
count-mark s n once a =
    ground
      (arith, once a, count-append a s.marked (n ∷ []), contains_iff n s.marked, str_eq_iff n a)

count-offer :
    (s : Search) (ns : List Str)
    → ((a : Str) → count a s.marked ≤ 1)
    → (a : Str) → count a (offer s ns).marked ≤ 1
unfolding offer
count-offer s [] once a = once a
count-offer s (n ∷ ns) once a = count-offer (mark s n) ns (count-mark s n once) a

length-mark :
    (s : Search) (n : Str)
    → length (mark s n).marked + length s.pending ≡ length s.marked + length (mark s n).pending
unfolding mark
length-mark s n = ground (arith, length-append s.marked (n ∷ []), length-append s.pending (n ∷ []))

length-offer :
    (s : Search) (ns : List Str)
    → length (offer s ns).marked + length s.pending ≡ length s.marked + length (offer s ns).pending
unfolding offer
length-offer s [] = omega arith
length-offer s (n ∷ ns) = omega (arith, length-offer (mark s n) ns, length-mark s n)

module _ (g : Graph) (seeds : List Str) (built : IsGraph g) where
  record Inv (s : Search) : Type 0 where
    included : (n : Str) → contains n seeds ≡ true → contains n s.marked ≡ true
    sound : (n : Str) → contains n s.marked ≡ true → Reach g seeds n
    once : (n : Str) → count n s.marked ≤ 1
    waiting : (n : Str) → contains n s.pending ≡ true → contains n s.marked ≡ true
    known : (n : Str) → contains n s.marked ≡ true → contains n g.nodes ≡ true
    closed :
        (u n : Str)
        → contains u s.marked ≡ true
        → contains n (g.outs u) ≡ true
        → (contains u s.pending ≡ true) ⊎ (contains n s.marked ≡ true)

  Inv-round :
      (marked rest : List Str) (u : Str)
      → Inv (record { marked = marked; pending = u ∷ rest })
      → Inv (offer (record { marked = marked; pending = rest }) (g.outs u))
  unfolding contains
  Inv-round marked rest u h =
      let s : Search = record { marked = marked; pending = rest } in
      let out = g.outs u in
      let in_marked = h.waiting u (ground (arith, str_eq_refl u)) in
      record {
        included = λ n m. ground (arith, h.included n m, marked-offer n s out);
        sound = λ n m. elim (Bool-cases (contains n marked)) [
          | inl old ↦ h.sound n old
          | inr fresh ↦ next (h.sound u in_marked) (ground (arith, marked-offer n s out))
        ];
        once = count-offer s out h.once;
        waiting = λ n m. ground (arith, h.waiting n, marked-offer n s out, pending-offer n s out);
        known = λ n m. ground (arith, h.known n, built.closed_out u n, marked-offer n s out);
        closed = λ x n m edge. ground (
          arith,
          h.closed x n,
          marked-offer x s out,
          marked-offer n s out,
          pending-offer x s out,
          str_eq_iff u x,
        );
      }

  spread_ends :
      (fuel : ℕ) (marked pending : List Str)
      → Inv (record { marked = marked; pending = pending })
      → length g.nodes + length pending < fuel + length marked
      → (ms : List Str) × (spread g fuel (record { marked = marked; pending = pending }) ≡ some ms)
        × Inv (record { marked = ms; pending = [] })
  unfolding spread
  spread_ends zero marked pending h bound = absurd (
      omega (
        arith,
        length-le_of_count marked g.nodes (λ a.
            ground (arith, h.known a, h.once a, contains_iff a marked, contains_iff a g.nodes)),
      ))
  spread_ends (suc fuel) marked [] h bound = (marked, refl, h)
  spread_ends (suc fuel) marked (u ∷ rest) h bound =
      let s : Search = record { marked = marked; pending = rest } in
      let t = offer s (g.outs u) in
      spread_ends fuel t.marked t.pending (Inv-round marked rest u h)
        (omega (arith, length-offer s (g.outs u)))

-- The set that `Select` computes, for both modes.
pub record IsSelected (g : Graph) (seeds : List Str) (downstream : Bool) (ms : List Str)
    : Type 0 where
  pub distinct : (n : Str) → count n ms ≤ 1
  pub known : (n : Str) → contains n ms ≡ true → contains n g.nodes ≡ true
  pub reachable : downstream ≡ true → (n : Str) → (contains n ms ≡ true) ↔ Reach g seeds n
  pub exact : downstream ≡ false → ms ≡ seeds

pub closure-IsSelected :
    (g : Graph) (seeds : List Str) (downstream : Bool)
    → IsGraph g
    → ((n : Str) → count n seeds ≤ 1)
    → ((n : Str) → contains n seeds ≡ true → contains n g.nodes ≡ true)
    → (ms : List Str) × (closure g seeds downstream ≡ some ms) × IsSelected g seeds downstream ms
unfolding closure contains
closure-IsSelected g seeds false built once known =
    (seeds, refl, record { distinct = once; known = known; reachable = λ e. cc; exact = λ _. refl })
closure-IsSelected g seeds true built once known =
    let (ms, ends, h) =
      spread_ends g seeds built (suc (length g.nodes)) seeds seeds
        (record {
          included = λ n m. m;
          sound = λ n m. seed m;
          once = once;
          waiting = λ n m. m;
          known = known;
          closed = λ u n m e. inl m;
        })
        (omega arith) in
    (
      ms,
      ends,
      record {
        distinct = h.once;
        known = h.known;
        reachable = λ _ n. (h.sound n, complete g seeds built ms h n);
        exact = λ e. cc;
      },
    )
  where
    complete :
        (g : Graph) (seeds : List Str) (built : IsGraph g) (ms : List Str)
        → Inv g seeds built (record { marked = ms; pending = [] })
        → (n : Str) → Reach g seeds n
        → contains n ms ≡ true
    complete g seeds built ms h n (seed m) = h.included n m
    complete g seeds built ms h n (next {u} r e) =
        elim (h.closed u n (complete g seeds built ms h u r) e) [ inl w ↦ cc | inr m ↦ m ]
