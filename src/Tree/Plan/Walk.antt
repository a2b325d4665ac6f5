-- ===== src/Tree/Plan/Walk.antt =====
-- One round of the walk of `plan_process_tree` of src/tree/plan.rs.
use mathlib.Core.List.{map-append}
use kickoutchi.Prelude.{
  ℕ, ◌≡◌, ◌≤◌, ◌+◌, refl, ap, ◌∙◌, true, false, List, [], ◌∷◌, map, arith, Bool-cases, inl, inr,
  ◌⊎◌, ◌==◌, nat_eq, length, length-append, any-or, All, leb,
}
use kickoutchi.Prelude.Text.{Text}
use kickoutchi.Model.{Platform}
use kickoutchi.Tree.{TreeProcessInfo}
use kickoutchi.Tree.Frozen.{contains}
use kickoutchi.Tree.Plan.{ProcessTreeNode, preview_node}
use kickoutchi.Tree.Plan.Build.{Preview, add_child, add_children}

abbrev pub node_pids : List ProcessTreeNode → List ℕ
node_pids = map (λ node. node.pid)

abbrev pub queued : Preview → List ℕ
queued p = map (λ (entry : ℕ × ℕ). entry.0) p.frontier

abbrev pub Tracks : Preview → Type 0
Tracks p = (pid : ℕ) → contains p.seen pid ≡ contains (node_pids p.nodes) pid

-- What the loop over the children `infos` makes of `p`, where it is not cut off.
pub record Added (limit : ℕ) (infos : List TreeProcessInfo) (p p' : Preview) : Type 0 where
  pub keeps : (pid : ℕ) → contains p.seen pid ≡ true → contains p'.seen pid ≡ true
  pub keeps_queue : (pid : ℕ) → contains (queued p) pid ≡ true → contains (queued p') pid ≡ true
  pub queues :
      (pid : ℕ)
      → contains p'.seen pid ≡ true
      → (contains p.seen pid ≡ true) ⊎ (contains (queued p') pid ≡ true)
  pub sees : All (λ info. contains p'.seen info.pid ≡ true) infos
  pub balance : length p'.frontier + length p.nodes ≡ length p.frontier + length p'.nodes
  pub within : length p.nodes ≤ limit → length p'.nodes ≤ limit
  pub tracks : Tracks p → Tracks p'

module _ (protected_names : List Text) (platform : Platform) (limit depth : ℕ) where
  add_child-Tracks :
      (child : TreeProcessInfo) (p : Preview)
      → Tracks p
      → Tracks (add_child protected_names platform limit depth child p)
  unfolding add_child preview_node
  add_child-Tracks child p t pid =
      let node = preview_node child depth protected_names platform in
      let joined =
        ap (λ l. contains l pid) (map-append (λ (n : ProcessTreeNode). n.pid) p.nodes (node ∷ []))
        ∙ any-or (λ member. member == pid) (node_pids p.nodes) (child.pid ∷ []) in
      ground (arith, joined, t pid)

  -- A child that is added, and what the loop makes of the rest.
  add_child-Added :
      (child : TreeProcessInfo) (rest : List TreeProcessInfo) (p p' : Preview)
      → leb limit (length p.nodes) ≡ false
      → Added limit rest (add_child protected_names platform limit depth child p) p'
      → Added limit (child ∷ rest) p p'
  unfolding add_child
  add_child-Added child rest p p' room a =
      let q = add_child protected_names platform limit depth child p in
      let longer = length-append p.nodes (preview_node child depth protected_names platform ∷ []) in
      record {
        keeps = λ pid h. a.keeps pid (ground arith);
        keeps_queue = λ pid h. a.keeps_queue pid (ground arith);
        queues = λ pid h. elim (a.queues pid h) [
          | inr later ↦ inr later
          | inl s ↦ elim (Bool-cases (contains p.seen pid)) [
            | inl old ↦ inl old
            | inr new ↦ inr (a.keeps_queue pid (ground (arith, s, new)))
          ]
        ];
        sees = (a.keeps child.pid (ground arith), a.sees);
        balance = omega (arith, a.balance, longer);
        within = λ m. a.within (ground (arith, longer, room));
        tracks = λ t. a.tracks (add_child-Tracks child p t);
      }

  skipped_then :
      (child : TreeProcessInfo) (rest : List TreeProcessInfo) (p p' : Preview)
      → contains p.seen child.pid ≡ true
      → Added limit rest p p'
      → Added limit (child ∷ rest) p p'
  skipped_then child rest p p' e a = record {
    keeps = a.keeps;
    keeps_queue = a.keeps_queue;
    queues = a.queues;
    sees = (a.keeps child.pid e, a.sees);
    balance = a.balance;
    within = a.within;
    tracks = a.tracks;
  }

  pub add_children-Added :
      (infos : List TreeProcessInfo) (p : Preview)
      → (add_children protected_names platform limit depth infos p).is_truncated ≡ false
      → Added limit infos p (add_children protected_names platform limit depth infos p)
  unfolding add_children
  add_children-Added [] p h = record {
    keeps = λ pid k. k;
    keeps_queue = λ pid k. k;
    queues = λ pid k. inl k;
    sees = tt;
    balance = refl;
    within = λ m. m;
    tracks = λ t. t;
  }
  add_children-Added (child ∷ rest) p h = elim (Bool-cases (contains p.seen child.pid)) [
    | inl e ↦
        rw (e, add_children)
          (skipped_then child rest p _ e (add_children-Added rest p (rw (e, add_children) at h)))
    | inr e ↦ elim (Bool-cases (leb limit (length p.nodes))) [
      | inl full ↦ let bad = (rw (e, full, add_children) at h) in cc
      | inr room ↦
          rw (e, room, add_children)
            (add_child-Added child rest p _ room (
              add_children-Added rest (add_child protected_names platform limit depth child p)
                (rw (e, room, add_children) at h)))
    ]
  ]
