-- ===== src/Graph/Neighbours.antt =====
-- graph/storm_grouping.py: the active incidents that strong edges tie to an incident.
use vh26_pixel_perfect.Prelude.{
  ℕ, Bool, ◌&&◌, not, String, string_eq, nat_eq, ◌==◌, List, [], ◌∷◌, ◌++◌, map, any, keep_if, take,
  ltb, leb, if◌then◌else◌,
}
use vh26_pixel_perfect.Engine.SilenceSweeper.{is_active}
use vh26_pixel_perfect.Graph.Tables.{Incident, Edge, Tables}

abbrev pub max_neighbours : ℕ
max_neighbours = 25

abbrev pub is_in : ℕ → List ℕ → Bool
is_in id ids = any (λ i. i == id) ids

-- The other ends of the strong edges out of and into an incident, with their weights.
unfoldable pub strong_ends : ℕ → ℕ → List Edge → List (ℕ × ℕ)
strong_ends threshold id edges =
    map (λ e. (e.dst, e.weight)) (keep_if (λ e. e.src == id && leb threshold e.weight) edges)
    ++ map (λ e. (e.src, e.weight)) (keep_if (λ e. e.dst == id && leb threshold e.weight) edges)

unfoldable pub is_neighbour : List Incident → ℕ → String → ℕ → Bool
is_neighbour incidents id scope other =
    any (λ i. i.incident_id == other && i.scope_key == scope && is_active i.status) incidents
    && not (other == id)

-- GROUP BY other_id, with MAX(weight)
unfoldable pub with_max : ℕ × ℕ → List (ℕ × ℕ) → List (ℕ × ℕ)
with_max (other, w) [] = (other, w) ∷ []
with_max (other, w) ((o, v) ∷ rest) =
    if o == other then (o, if ltb v w then w else v) ∷ rest else (o, v) ∷ with_max (other, w) rest

unfoldable pub strongest : List (ℕ × ℕ) → List (ℕ × ℕ)
unfolding with_max
strongest [] = []
strongest (e ∷ ends) = with_max e (strongest ends)

-- ORDER BY weight DESC
unfoldable pub insert_heavier : ℕ × ℕ → List (ℕ × ℕ) → List (ℕ × ℕ)
insert_heavier (other, w) [] = (other, w) ∷ []
insert_heavier (other, w) ((o, v) ∷ rest) =
    if ltb v w then (other, w) ∷ (o, v) ∷ rest else (o, v) ∷ insert_heavier (other, w) rest

unfoldable pub by_weight : List (ℕ × ℕ) → List (ℕ × ℕ)
unfolding insert_heavier
by_weight [] = []
by_weight (e ∷ ends) = insert_heavier e (by_weight ends)

unfoldable pub strong_neighbours : ℕ → Tables → ℕ → String → List ℕ
unfolding strong_ends is_neighbour strongest by_weight
strong_neighbours threshold t id scope =
    map (λ e. e.0)
      (take max_neighbours (
        by_weight (
          strongest (
            keep_if (λ e. is_neighbour t.incidents id scope e.0)
              (strong_ends threshold id t.edges)))))
