-- ===== src/Wf4/Influence/Greedy/Consistent.antt =====
-- `GetInfluentialNodes`: what holds between two rounds.
use graph_log_sketch.Base.{
  ℕ, ◌+◌, ◌%◌, ◌<◌, ◌≡◌, refl, sym, ap, subst, ◌∙◌, false, List, [], ◌∷◌, map, All, Memᴰ, arith,
  ==_iff, length, get_or,
}
use graph_log_sketch.Base.DoAll.{Schedule, map-from}
use graph_log_sketch.Base.Sets.{HasNoRepeats}
use graph_log_sketch.Graph.{u64_mod}
use graph_log_sketch.Wf4.Influence.Removal.Frequencies.{occurrences}
use graph_log_sketch.Wf4.Influence.Greedy.{
  HostState, host_of, cover, receive_updates, clear_sent, remove_nodes_from_remotes,
  remove_influence,
}
use graph_log_sketch.Wf4.Influence.Greedy.Updates.{remove_reachable_sets-length}
use graph_log_sketch.Wf4.Influence.Greedy.Rounds.{coverage, IsConsistent}
use graph_log_sketch.Wf4.Influence.Greedy.Balance.{after, after-counted, cover-IsAddressed}
use graph_log_sketch.Wf4.Influence.Greedy.Kept.{after-IsWord, clear_from-length, clear_from-get_or}
use mathlib.Core.Bool.{false≢true}

map_twice :
    (f g : HostState → HostState) (hs : List HostState) → map f (map g hs) ≡ map (λ h. f (g h)) hs
map_twice f g [] = refl
map_twice f g (h ∷ hs) = ap (λ t. f (g h) ∷ t) (map_twice f g hs)

host_of-cover : (sched : Schedule) (n : ℕ) (h : HostState) → host_of (cover sched n h) ≡ host_of h
unfolding cover
host_of-cover sched n h = refl

module _ (sched : Schedule) (n : ℕ) (hosts : List HostState) where
  pub remove_influence-after : remove_influence sched n hosts ≡ map (after sched n hosts) hosts
  unfolding remove_influence remove_nodes_from_remotes
  remove_influence-after =
      map_twice (λ h. clear_sent (receive_updates sched (map (cover sched n) hosts) h))
        (cover sched n) hosts

  same_ids : (hs : List HostState) → map host_of (map (after sched n hosts) hs) ≡ map host_of hs
  unfolding clear_sent receive_updates cover
  same_ids [] = refl
  same_ids (h ∷ hs) = ap (λ is. host_of h ∷ is) (same_ids hs)

  coverage-after :
      (v : ℕ) (hs : List HostState)
      → coverage v (map (after sched n hosts) hs) ≡ coverage v (map (cover sched n) hs)
  unfolding clear_sent receive_updates
  coverage-after v [] = refl
  coverage-after v (h ∷ hs) =
      ap (λ x. occurrences v (cover sched n h).sets + x) (coverage-after v hs)

  module _ (c : IsConsistent hosts) where
    -- A host counts nothing for itself.
    none_own :
        (h : HostState)
        → Memᴰ h hosts
        → (i : ℕ) → i ≡ host_of h
        → get_or (cover sched n h).remote_updates i [] ≡ []
    none_own h mh i own =
        none_in (get_or (cover sched n h).remote_updates i [])
          (cover-IsAddressed sched n hosts c h mh i)
      where
        none_in :
            (updates : List (ℕ × ℕ))
            → All
                (λ u. (h.placement.get_host_id u.0 ≡ i) × (h.placement.is_owned u.0 ≡ false))
                updates
            → updates ≡ []
        none_in [] all = refl
        none_in (u ∷ updates) ((at, away), all) =
            absurd (false≢true (sym away ∙ c.agree h h mh mh u.0 ∙ (==_iff _ _).1 (at ∙ own)))

    after-clear :
        (h : HostState)
        → Memᴰ h hosts
        → (i : ℕ) → get_or (after sched n hosts h).remote_updates i [] ≡ []
    unfolding clear_sent receive_updates
    after-clear h mh i =
        clear_from-get_or (host_of (cover sched n h)) 0 i (cover sched n h).remote_updates
          (λ e. none_own h mh i (omega (arith, e, host_of-cover sched n h)))

    after-wide :
        (h s : HostState)
        → Memᴰ h hosts
        → Memᴰ s hosts
        → host_of s < length (after sched n hosts h).remote_updates
    unfolding clear_sent receive_updates cover
    after-wide h s mh ms = omega (
      arith,
      c.wide h s mh ms,
      clear_from-length (host_of h) 0 (cover sched n h).remote_updates,
      remove_reachable_sets-length h.placement sched n h.sets
          (record { nodes = h.nodes; remote_updates = h.remote_updates }),
    )

    after-IsConsistent : IsConsistent (map (after sched n hosts) hosts)
    unfolding clear_sent receive_updates cover
    after-IsConsistent = record {
      distinct = subst HasNoRepeats (sym (same_ids hosts)) c.distinct;
      agree = λ h' s' mh ms v.
          let (h, ih, e) = map-from (after sched n hosts) hosts h' mh in
          let (s, is, e') = map-from (after sched n hosts) hosts s' ms in
          rw (e, e') (c.agree h s ih is v);
      placed = λ h' mh.
          let (h, ih, e) = map-from (after sched n hosts) hosts h' mh in rw e (c.placed h ih);
      clear = λ h' mh i.
          let (h, ih, e) = map-from (after sched n hosts) hosts h' mh in rw e (after-clear h ih i);
      wide = λ h' s' mh ms.
          let (h, ih, e) = map-from (after sched n hosts) hosts h' mh in
          let (s, is, e') = map-from (after sched n hosts) hosts s' ms in
          rw (e, e') (after-wide h s ih is);
      shared = λ h' share u mh m m'.
          let (h, ih, e) = map-from (after sched n hosts) hosts h' mh in
          rw e (c.shared h share u ih (rw e at m) m');
      words = λ h' mh.
          let (h, ih, e) = map-from (after sched n hosts) hosts h' mh in
          rw e (after-IsWord sched n hosts h (c.words h ih));
      counted = λ h' v mh mine.
          let (h, ih, e) = map-from (after sched n hosts) hosts h' mh in
          let counted = after-counted sched n hosts c h v ih (rw e at mine) in
          rw e (counted ∙ ap (λ x. x % u64_mod) (sym (coverage-after v hosts)));
    }

    pub remove_influence-IsConsistent : IsConsistent (remove_influence sched n hosts)
    remove_influence-IsConsistent =
        subst IsConsistent (sym remove_influence-after) after-IsConsistent
