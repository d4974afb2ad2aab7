-- ===== src/Algo/Bc/Brandes/Dependencies.antt =====
-- `BetweennessCentrality::compute` of include/scea/algo/bc.hpp: the dependencies of one source.
use graph_log_sketch.Base.{
  ℕ, ◌<◌, ◌≡◌, ◌≢◌, refl, sym, ap, ◌∙◌, inl, inr, List, [], ◌∷◌, foldl, arith, ◌==◌, ==_iff,
  if◌then◌else◌, Bool-cases, length, set, length-set, get_or-set_self, get_or-set_ne,
}
use graph_log_sketch.Graph.{MutableGraph}
use graph_log_sketch.Algo.Bc.{Sssp, dist, paths_to}
use graph_log_sketch.Algo.Bc.Brandes.{Double, Scores, read, grab_dependency, brandes_vertex}

module _ {R : Type 0} (double : Double R) {S : Type 0} (G : MutableGraph S) (g : S) (s : Sssp) where
  -- One addend of Brandes's sum, for the successor `w` of a vertex before `succ_level`.
  pub add_successor : (ℕ → R) → ℕ → R → ℕ → R
  add_successor dep succ_level acc w =
      if dist s w == succ_level
      then double.plus acc
          (double.over (double.plus (double.of_nat 1) (dep w)) (double.of_nat (paths_to s w)))
      else acc

  -- Brandes's equation: the dependency of `v` by those of its successors at the next level.
  pub dependency_of : (ℕ → R) → ℕ → ℕ → R
  unfolding add_successor
  dependency_of dep succ_level v =
      double.times (foldl (add_successor dep succ_level) (double.of_nat 0) (G.neighbors g v))
        (double.of_nat (paths_to s v))

  add_successor-ext :
      (dep dep' : ℕ → R) (succ_level : ℕ)
      → ((w : ℕ) → dist s w ≡ succ_level → dep w ≡ dep' w)
      → (acc : R) (w : ℕ) → add_successor dep succ_level acc w ≡ add_successor dep' succ_level acc w
  unfolding add_successor
  add_successor-ext dep dep' succ_level same acc w = elim (Bool-cases (dist s w == succ_level)) [
    | inl e ↦ rw (e, same w ((==_iff _ _).0 e)) refl
    | inr e ↦ rw e refl
  ]

  add_successors-ext :
      (dep dep' : ℕ → R) (succ_level : ℕ)
      → ((w : ℕ) → dist s w ≡ succ_level → dep w ≡ dep' w)
      → (acc : R) (ws : List ℕ)
      → foldl (add_successor dep succ_level) acc ws ≡ foldl (add_successor dep' succ_level) acc ws
  add_successors-ext dep dep' succ_level same acc [] = refl
  add_successors-ext dep dep' succ_level same acc (w ∷ ws) =
      ap (λ x. foldl (add_successor dep succ_level) x ws)
        (add_successor-ext dep dep' succ_level same acc w)
      ∙ add_successors-ext dep dep' succ_level same (add_successor dep' succ_level acc w) ws

  -- Only the dependencies at the next level are read.
  pub dependency_of-ext :
      (dep dep' : ℕ → R) (succ_level v : ℕ)
      → ((w : ℕ) → dist s w ≡ succ_level → dep w ≡ dep' w)
      → dependency_of dep succ_level v ≡ dependency_of dep' succ_level v
  unfolding dependency_of
  dependency_of-ext dep dep' succ_level v same =
      ap (λ x. double.times x (double.of_nat (paths_to s v)))
        (add_successors-ext dep dep' succ_level same (double.of_nat 0) (G.neighbors g v))

  grab_one :
      (succ_level n : ℕ) (f : ℕ → R) (dep : List R) (w : ℕ)
      → n < length dep
      → ((v : ℕ) → dist s v ≡ succ_level → read double dep v ≡ f v)
      → (length (grab_dependency double s succ_level n dep w) ≡ length dep)
        × (read double (grab_dependency double s succ_level n dep w) n
            ≡ add_successor f succ_level (read double dep n) w)
        × ((v : ℕ)
            → v ≢ n
            → read double (grab_dependency double s succ_level n dep w) v ≡ read double dep v)
  unfolding grab_dependency add_successor
  grab_one succ_level n f dep w h agree = elim (Bool-cases (dist s w == succ_level)) [
    | inl e ↦
        rw (e, ← agree w ((==_iff _ _).0 e))
          (
            length-set dep n _,
            get_or-set_self dep n _ _ h,
            λ v ne. get_or-set_ne dep n v _ _ (λ q. ne (sym q)),
          )
    | inr e ↦ rw e (refl, refl, λ v ne. refl)
  ]

  -- The cell of `n` collects the addends, and the other cells stay.
  grab_dependency-lem :
      (succ_level n : ℕ) (f : ℕ → R)
      → dist s n ≢ succ_level
      → (ws : List ℕ) (dep : List R) → n < length dep
      → ((w : ℕ) → dist s w ≡ succ_level → read double dep w ≡ f w)
      → (length (foldl (grab_dependency double s succ_level n) dep ws) ≡ length dep)
        × (read double (foldl (grab_dependency double s succ_level n) dep ws) n
            ≡ foldl (add_successor f succ_level) (read double dep n) ws)
        × ((v : ℕ)
            → v ≢ n
            → read double (foldl (grab_dependency double s succ_level n) dep ws) v
              ≡ read double dep v)
  grab_dependency-lem succ_level n f off [] dep h agree = (refl, refl, λ v ne. refl)
  grab_dependency-lem succ_level n f off (w ∷ ws) dep h agree =
      let (length_one, here_one, others_one) = grab_one succ_level n f dep w h agree in
      let (sized, here, others) =
        grab_dependency-lem succ_level n f off ws (grab_dependency double s succ_level n dep w)
          (omega (arith, length_one))
          (λ v at. others_one v (λ e. off (ap (dist s) (sym e) ∙ at)) ∙ agree v at) in
      (
        sized ∙ length_one,
        here ∙ ap (λ x. foldl (add_successor f succ_level) x ws) here_one,
        λ v ne. others v ne ∙ others_one v ne,
      )

  -- The scores after a change of the cells of `n`.
  abbrev pub IsScored : ℕ → R → Scores R → Scores R → Type 0
  IsScored n value old new =
      (length new.dependency ≡ length old.dependency)
      × (length new.centrality ≡ length old.centrality)
      × (read double new.dependency n ≡ value)
      × (read double new.centrality n ≡ double.plus (read double old.centrality n) value)
      × ((v : ℕ)
          → v ≢ n
          → (read double new.dependency v ≡ read double old.dependency v)
            × (read double new.centrality v ≡ read double old.centrality v))

  pub brandes_vertex-lem :
      (succ_level n : ℕ) (f : ℕ → R) (scores : Scores R)
      → dist s n ≢ succ_level
      → n < length scores.dependency
      → n < length scores.centrality
      → ((w : ℕ) → dist s w ≡ succ_level → read double scores.dependency w ≡ f w)
      → read double scores.dependency n ≡ double.of_nat 0
      → IsScored n
          (dependency_of f succ_level n)
          scores
          (brandes_vertex double G g s succ_level scores n)
  unfolding brandes_vertex dependency_of
  brandes_vertex-lem succ_level n f scores off h k agree blank =
      let grabbed =
        foldl (grab_dependency double s succ_level n) scores.dependency (G.neighbors g n) in
      let (sized, here, others) =
        grab_dependency-lem succ_level n f off (G.neighbors g n) scores.dependency h agree in
      let value = double.times (read double grabbed n) (double.of_nat (paths_to s n)) in
      let at : read double (set grabbed n value) n ≡ value =
        get_or-set_self grabbed n value _ (omega arith) in
      let same : value ≡ _ =
        ap (λ x. double.times x (double.of_nat (paths_to s n)))
          (here ∙ ap (λ x. foldl (add_successor f succ_level) x (G.neighbors g n)) blank) in
      (
        length-set grabbed n value ∙ sized,
        length-set scores.centrality n _,
        at ∙ same,
        get_or-set_self scores.centrality n _ _ k
            ∙ ap (double.plus (read double scores.centrality n)) (at ∙ same),
        λ v ne. (
          get_or-set_ne grabbed n v _ _ (λ q. ne (sym q)) ∙ others v ne,
          get_or-set_ne scores.centrality n v _ _ (λ q. ne (sym q)),
        ),
      )
