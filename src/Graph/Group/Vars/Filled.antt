-- ===== src/Graph/Group/Vars/Filled.antt =====
-- internal/graph/group.go: what applyUseVars has written when it ends without an error.
use terragraph.Prelude.{
  ◌≡◌, refl, ◌∙◌, arith, true, false, Str, List, [], ◌∷◌, ◌++◌, map, sort, lookup, insert, Option,
  none, some, All, All-map, All-append, str_eq_iff, str_eq_refl, Bool-cases, Option-cases, inl, inr,
  subst,
}
use terragraph.Blueprint.{PortRef}
use terragraph.Graph.Group.{ExportInput, resolved}
use terragraph.Graph.Group.Success.{OnSuccess, on_success, >>=-OnSuccess, weaken}
use terragraph.Graph.Group.Vars.{
  by_name, LeafVars, same_slot, set_var, set_targets, set_input, set_inputs, apply_use_vars, slot,
  slot-insert,
}

same_slot-eq :
    (ref : PortRef) (n v : Str) → same_slot ref n v ≡ true → (n ≡ ref.node) × (v ≡ ref.name)
same_slot-eq ref n v e =
    ((str_eq_iff n ref.node).0 (ground (arith, e)), (str_eq_iff v ref.name).0 (ground (arith, e)))

module _ {V : Type 0} where
  -- No two of the writes go to one slot.
  abbrev pub AreApart : List (PortRef × V) → Type 0
  AreApart [] = Unit
  AreApart (w ∷ ws) = All (λ u. same_slot u.0 w.0.node w.0.name ≡ false) ws × AreApart ws

  -- The values have been written, each to a slot of its own that was free, every value that was
  -- there is there still, and no other slot has changed.
  pub record IsFilled (writes : List (PortRef × V)) (old new : LeafVars V) : Type 0 where
    pub written : All (λ w. slot w.0.node w.0.name new ≡ some w.1) writes
    pub free : All (λ w. slot w.0.node w.0.name old ≡ none) writes
    pub preserved : (n v : Str) (x : V) → slot n v old ≡ some x → slot n v new ≡ some x
    pub kept :
        (n v : Str) → All (λ w. same_slot w.0 n v ≡ false) writes → slot n v new ≡ slot n v old
    pub apart : AreApart writes

  IsFilled-nil : (nodes : LeafVars V) → IsFilled [] nodes nodes
  IsFilled-nil nodes = record {
    written = tt;
    free = tt;
    preserved = λ n v x e. e;
    kept = λ n v _. refl;
    apart = tt;
  }

  split {ℓ} :
      (P : PortRef × V → Type ℓ) (xs ys : List (PortRef × V))
      → All P (xs ++ ys)
      → All P xs × All P ys
  split P [] ys h = (tt, h)
  split P (x ∷ xs) ys h = let r = split P xs ys h.1 in ((h.0, r.0), r.1)

  -- A slot that holds a value is none of the free ones.
  taken-apart :
      (nodes : LeafVars V) (n v : Str) (x : V) (ys : List (PortRef × V))
      → slot n v nodes ≡ some x
      → All (λ w. slot w.0.node w.0.name nodes ≡ none) ys
      → All (λ w. same_slot w.0 n v ≡ false) ys
  taken-apart nodes n v x ys e free =
      All-map ys
        (λ w f. elim (Bool-cases (same_slot w.0 n v)) [
          | inr d ↦ d
          | inl s ↦
              let same = same_slot-eq w.0 n v s in
              let here : slot w.0.node w.0.name nodes ≡ some x =
                subst (λ m. slot m w.0.name nodes ≡ some x) same.0
                  (subst (λ u. slot n u nodes ≡ some x) same.1 e) in
              absurd (cc)
        ])
        free

  AreApart-append :
      (nodes : LeafVars V) (xs ys : List (PortRef × V))
      → AreApart xs
      → All (λ w. slot w.0.node w.0.name nodes ≡ some w.1) xs
      → AreApart ys
      → All (λ w. slot w.0.node w.0.name nodes ≡ none) ys
      → AreApart (xs ++ ys)
  AreApart-append nodes [] ys a w b f = b
  AreApart-append nodes (x ∷ xs) ys a w b f = (
    All-append (λ u. same_slot u.0 x.0.node x.0.name ≡ false) xs ys a.0
        (taken-apart nodes x.0.node x.0.name x.1 ys w.0 f),
    AreApart-append nodes xs ys a.1 w.1 b f,
  )

  IsFilled-append :
      (xs ys : List (PortRef × V)) (a b c : LeafVars V)
      → IsFilled xs a b
      → IsFilled ys b c
      → IsFilled (xs ++ ys) a c
  IsFilled-append xs ys a b c f g = record {
    written =
        All-append (λ w. slot w.0.node w.0.name c ≡ some w.1) xs ys
          (All-map xs (λ w e. g.preserved w.0.node w.0.name w.1 e) f.written) g.written;
    free =
        All-append (λ w. slot w.0.node w.0.name a ≡ none) xs ys f.free
          (All-map ys
            (λ w e. elim (Option-cases (slot w.0.node w.0.name a)) [
              | inl n ↦ n
              | inr (x, s) ↦ absurd (let t = f.preserved w.0.node w.0.name x s in cc)
            ])
            g.free);
    preserved = λ n v x e. g.preserved n v x (f.preserved n v x e);
    kept = λ n v h.
        let parts = split (λ w. same_slot w.0 n v ≡ false) xs ys h in
        g.kept n v parts.1 ∙ f.kept n v parts.0;
    apart = AreApart-append b xs ys f.apart f.written g.apart g.free;
  }

  insert-IsFilled :
      (ref : PortRef) (value : V) (nodes : LeafVars V) (vars : List (Str × V))
      → lookup ref.node nodes ≡ some vars
      → lookup ref.name vars ≡ none
      → IsFilled ((ref, value) ∷ []) nodes (insert ref.node (insert ref.name value vars) nodes)
  unfolding slot
  insert-IsFilled ref value nodes vars e f =
      let was : slot ref.node ref.name nodes ≡ none = rw (slot, e) f in
      record {
        written = (
          slot-insert ref value nodes vars ref.node ref.name e
              ∙ rw (str_eq_refl ref.node, str_eq_refl ref.name) refl,
          tt,
        );
        free = (was, tt);
        preserved = λ n v x s.
            slot-insert ref value nodes vars n v e
            ∙ rw (taken-apart nodes n v x ((ref, value) ∷ []) s (was, tt)).0 s;
        kept = λ n v h. slot-insert ref value nodes vars n v e ∙ rw h.0 refl;
        apart = (tt, tt);
      }

  set_var-IsFilled :
      (ref : PortRef) (value : V) (nodes : LeafVars V)
      → OnSuccess (IsFilled ((ref, value) ∷ []) nodes) (set_var ref value nodes)
  unfolding set_var
  set_var-IsFilled ref value nodes = elim (Option-cases (lookup ref.node nodes)) [
    | inl n ↦ rw (n, OnSuccess) tt
    | inr (vars, e) ↦ elim (Option-cases (lookup ref.name vars)) [
      | inr (x, f) ↦ rw (e, OnSuccess, f) tt
      | inl f ↦ rw (e, OnSuccess, f) (insert-IsFilled ref value nodes vars e f)
    ]
  ]

  abbrev pub writes_to : V → List PortRef → List (PortRef × V)
  writes_to value = map (λ ref. (ref, value))

  set_targets-IsFilled :
      (refs : List PortRef) (value : V) (nodes : LeafVars V)
      → OnSuccess (IsFilled (writes_to value refs) nodes) (set_targets refs value nodes)
  unfolding set_targets
  set_targets-IsFilled [] value nodes = IsFilled-nil nodes
  set_targets-IsFilled (ref ∷ refs) value nodes =
      >>=-OnSuccess (IsFilled ((ref, value) ∷ []) nodes)
        (IsFilled (writes_to value (ref ∷ refs)) nodes) (set_var ref value nodes)
        (set_targets refs value) (set_var-IsFilled ref value nodes)
        (λ next h.
          weaken (IsFilled (writes_to value refs) next)
            (IsFilled (writes_to value (ref ∷ refs)) nodes) (set_targets refs value next)
            (set_targets-IsFilled refs value next)
            (λ last g.
              IsFilled-append ((ref, value) ∷ []) (writes_to value refs) nodes next last h g))

  -- What one key of the use block is written to.
  abbrev pub writes_of : Option (List PortRef) → Option V → List (PortRef × V)
  writes_of (some targets) (some value) = writes_to value targets
  writes_of _ _ = []

  set_input-IsFilled :
      (targets : Option (List PortRef)) (value : Option V) (key : Str) (nodes : LeafVars V)
      → OnSuccess (IsFilled (writes_of targets value) nodes) (set_input targets value key nodes)
  set_input-IsFilled (some targets) (some value) key nodes =
      set_targets-IsFilled targets value nodes
  set_input-IsFilled none value key nodes = tt
  set_input-IsFilled (some targets) none key nodes = tt

  -- Every target of every key, with the key's value.
  unfoldable pub use_writes :
      List (Str × List PortRef) → List (Str × V) → List Str → List (PortRef × V)
  use_writes inputs vars [] = []
  use_writes inputs vars (key ∷ keys) =
      writes_of (lookup key inputs) (lookup key vars) ++ use_writes inputs vars keys

  set_inputs-IsFilled :
      (inputs : List (Str × List PortRef)) (vars : List (Str × V)) (keys : List Str)
      (nodes : LeafVars V)
      → OnSuccess (IsFilled (use_writes inputs vars keys) nodes) (set_inputs inputs vars keys nodes)
  unfolding set_inputs use_writes
  set_inputs-IsFilled inputs vars [] nodes = IsFilled-nil nodes
  set_inputs-IsFilled inputs vars (key ∷ keys) nodes =
      let first = writes_of (lookup key inputs) (lookup key vars) in
      >>=-OnSuccess (IsFilled first nodes) (IsFilled (use_writes inputs vars (key ∷ keys)) nodes)
        (set_input (lookup key inputs) (lookup key vars) key nodes) (set_inputs inputs vars keys)
        (set_input-IsFilled (lookup key inputs) (lookup key vars) key nodes)
        (λ next h.
          weaken (IsFilled (use_writes inputs vars keys) next)
            (IsFilled (use_writes inputs vars (key ∷ keys)) nodes)
            (set_inputs inputs vars keys next) (set_inputs-IsFilled inputs vars keys next)
            (λ last g. IsFilled-append first (use_writes inputs vars keys) nodes next last h g))

  -- When `applyUseVars` ends without an error, the value of each key stands in every target of the
  -- input of that name, each target was a slot of its own that nothing had set, every value set
  -- before is unchanged, and so is every slot that is no target.
  pub apply_use_vars-IsFilled :
      (vars : List (Str × V)) (inputs : List ExportInput) (nodes filled : LeafVars V)
      → apply_use_vars vars inputs nodes ≡ resolved filled
      → IsFilled (use_writes (by_name inputs []) vars (sort (map (λ e. e.0) vars))) nodes filled
  unfolding apply_use_vars use_writes sort
  apply_use_vars-IsFilled [] inputs nodes filled e =
      on_success (IsFilled [] nodes) (resolved nodes) filled (IsFilled-nil nodes) e
  apply_use_vars-IsFilled (u ∷ vars) inputs nodes filled e =
      let keys = sort (map (λ x. x.0) (u ∷ vars)) in
      on_success (IsFilled (use_writes (by_name inputs []) (u ∷ vars) keys) nodes)
        (set_inputs (by_name inputs []) (u ∷ vars) keys nodes) filled
        (set_inputs-IsFilled (by_name inputs []) (u ∷ vars) keys nodes) e
