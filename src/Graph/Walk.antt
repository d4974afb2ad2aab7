-- ===== src/Graph/Walk.antt =====
-- Walks along the edges of a graph, and distances: what the searches are to compute.
use graph_log_sketch.Base.{ℕ, zero, suc, ◌≤◌, ◌<◌, Memᴰ}
use graph_log_sketch.Graph.{MutableGraph}

-- A walk of that many edges from `src`.
pub data Walk {S : Type 0} (G : MutableGraph S) (g : S) (src : ℕ) : ℕ → ℕ → Type 0 where
  here : Walk G g src zero src
  step : {k u v : ℕ} → Walk G g src k u → Memᴰ v (G.neighbors g u) → Walk G g src (suc k) v

module _ {S : Type 0} (G : MutableGraph S) (g : S) where
  -- The length of a shortest walk.
  abbrev pub IsDistance : ℕ → ℕ → ℕ → Type 0
  IsDistance src v d = Walk G g src d v × ((k : ℕ) → Walk G g src k v → d ≤ k)

  -- No edge leaves the graph.
  abbrev pub IsClosed : Type 0
  IsClosed = (u v : ℕ) → Memᴰ v (G.neighbors g u) → v < G.size g
