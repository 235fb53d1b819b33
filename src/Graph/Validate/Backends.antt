-- ===== src/Graph/Validate/Backends.antt =====
-- internal/graph/validate.go: the nodes of one module directory whose state would be the same,
-- which `backendProblems` finds by putting nodes with equal settings together. A backend_config
-- is the list of its entries in the order of the keys, so that equal maps are equal lists.
use terragraph.Prelude.{
  ◌≡◌, ◌<◌, refl, ap, ap₂, sym, arith, Bool, true, false, not, ◌&&◌, ◌||◌, Str, List, [], ◌∷◌, ◌++◌,
  keep, any, all, is_nil, length, length-append, ltb, str_eq, str_eq_iff, if◌then◌else◌, Bool-cases,
  inl, inr, All,
}

abbrev pub Config : Type 0
Config = List (Str × Str)

-- maps.Equal
unfoldable pub config_eq : Config → Config → Bool
config_eq [] [] = true
config_eq [] (e ∷ b) = false
config_eq (d ∷ a) [] = false
config_eq (d ∷ a) (e ∷ b) = str_eq d.0 e.0 && str_eq d.1 e.1 && config_eq a b

config_eq_sound : (a b : Config) → config_eq a b ≡ true → a ≡ b
unfolding config_eq
config_eq_sound [] [] h = refl
config_eq_sound [] (e ∷ b) h = absurd (cc)
config_eq_sound (d ∷ a) [] h = absurd (cc)
config_eq_sound (d ∷ a) (e ∷ b) h =
    ap₂ (λ x l. x ∷ l)
      (ap₂ (λ (u v : Str). (u, v)) ((str_eq_iff d.0 e.0).0 (ground (arith, h)))
        ((str_eq_iff d.1 e.1).0 (ground (arith, h))))
      (config_eq_sound a b (ground (arith, h)))

-- A backend_config and the nodes that have it.
abbrev pub Part : Type 0
Part = Config × List Str

module _ (config_at : Str → Config) where
  -- The first part with the node's settings takes the node, or a new part does.
  unfoldable pub join_part : Str → List Part → List Part
  join_part n [] = (config_at n, n ∷ []) ∷ []
  join_part n (p ∷ ps) =
      let rest = join_part n ps in
      if config_eq p.0 (config_at n) then (p.0, p.1 ++ n ∷ []) ∷ ps else p ∷ rest

  unfoldable pub partitions : List Str → List Part → List Part
  partitions [] ps = ps
  partitions (n ∷ ns) ps = partitions ns (join_part n ps)

  -- The parts that are reported: those of two nodes at least.
  unfoldable pub shared : List Part → List Part
  shared ps = keep (λ p. ltb 1 (length p.1)) ps

  -- The conflicts among the nodes of one directory; a node alone has none, so the early
  -- `continue` changes nothing.
  unfoldable pub conflicts : List Str → List Part
  conflicts names = shared (partitions names [])

  -- No two of the nodes have the same settings.
  abbrev pub all_apart : List Str → Bool
  all_apart [] = true
  all_apart (n ∷ ns) = all (λ m. not (config_eq (config_at n) (config_at m))) ns && all_apart ns

  abbrev has_config : Config → List Part → Bool
  has_config c = any (λ p. config_eq p.0 c)

  abbrev AreInhabited : List Part → Type 0
  AreInhabited = All (λ p. 0 < length p.1)

  join_part-AreInhabited :
      (n : Str) (ps : List Part) → AreInhabited ps → AreInhabited (join_part n ps)
  unfolding join_part
  join_part-AreInhabited n [] h = (omega arith, tt)
  join_part-AreInhabited n (p ∷ ps) h = elim (Bool-cases (config_eq p.0 (config_at n))) [
    | inl e ↦ rw e (omega (arith, length-append p.1 (n ∷ [])), h.1)
    | inr d ↦ rw d (h.0, join_part-AreInhabited n ps h.1)
  ]

  shared-join_part :
      (n : Str) (ps : List Part)
      → AreInhabited ps
      → is_nil (shared (join_part n ps)) ≡ (is_nil (shared ps) && not (has_config (config_at n) ps))
  unfolding shared join_part
  shared-join_part n [] h = refl
  shared-join_part n (p ∷ ps) h =
      ground (arith, h.0, length-append p.1 (n ∷ []), shared-join_part n ps h.1)

  has_config-join_part :
      (n : Str) (c : Config) (ps : List Part)
      → has_config c (join_part n ps) ≡ (has_config c ps || config_eq (config_at n) c)
  unfolding join_part
  has_config-join_part n c [] = ground (arith)
  has_config-join_part n c (p ∷ ps) = elim (Bool-cases (config_eq p.0 (config_at n))) [
    | inl e ↦
        let same = config_eq_sound p.0 (config_at n) e in
        let also : config_eq (config_at n) c ≡ config_eq p.0 c =
          ap (λ x. config_eq x c) (sym same) in
        rw (e, also) (ground (arith))
    | inr d ↦ rw d (ground (arith, has_config-join_part n c ps))
  ]

  none_joined :
      (n : Str) (ns : List Str) (ps : List Part)
      → all (λ m. not (has_config (config_at m) (join_part n ps))) ns ≡ (
          all (λ m. not (has_config (config_at m) ps)) ns
          && all (λ m. not (config_eq (config_at n) (config_at m))) ns)
  none_joined n [] ps = refl
  none_joined n (m ∷ ns) ps =
      ground (arith, has_config-join_part n (config_at m) ps, none_joined n ns ps)

  none_free : (ns : List Str) → all (λ m. not (has_config (config_at m) [])) ns ≡ true
  none_free [] = refl
  none_free (n ∷ ns) = none_free ns

  partitions-shared :
      (ns : List Str) (ps : List Part)
      → AreInhabited ps
      → is_nil (shared (partitions ns ps))
        ≡ (is_nil (shared ps) && all (λ m. not (has_config (config_at m) ps)) ns && all_apart ns)
  unfolding partitions
  partitions-shared [] ps h = ground (arith)
  partitions-shared (n ∷ ns) ps h =
      let rest = partitions-shared ns (join_part n ps) (join_part-AreInhabited n ps h) in
      let first = shared-join_part n ps h in
      let others = none_joined n ns ps in ground (arith, rest, first, others)

  -- Of the nodes of one module directory, `backendProblems` reports a conflict exactly if two of
  -- them have the same backend_config.
  pub conflicts-apart : (names : List Str) → is_nil (conflicts names) ≡ all_apart names
  unfolding conflicts shared
  conflicts-apart names =
      let h = partitions-shared names [] tt in let free = none_free names in ground (arith, h, free)
