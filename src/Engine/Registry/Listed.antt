-- ===== src/Engine/Registry/Listed.antt =====
-- What `list` of backend/src/engine/workers/registry.ts lists.
use background_job_runner.Prelude.{
  ◌≡◌, refl, ap, ◌∙◌, false, not, List, [], ◌∷◌, Option, none, some, All, Text, text_eq,
  text_eq_iff, text_eq_refl, arith, All-of_at, All-at, At-filter_inv,
}
use background_job_runner.Engine.Registry.{WorkerDescriptor, find_lane, list, other_lanes, found_or}

-- The descriptor by which a lane of this name is found.
abbrev pub IsFound : List WorkerDescriptor → WorkerDescriptor → Type 0
IsFound ds d = find_lane d.lane ds ≡ some d

find_lane-lane :
    (lane : Text) (ds : List WorkerDescriptor) (d : WorkerDescriptor)
    → find_lane lane ds ≡ some d
    → d.lane ≡ lane
unfolding find_lane
find_lane-lane lane [] d h = absurd (ground arith)
find_lane-lane lane (e ∷ ds) d h = ground (arith, text_eq_iff e.lane lane, find_lane-lane lane ds d)

first-IsFound :
    (d : WorkerDescriptor) (ds : List WorkerDescriptor) (o : Option WorkerDescriptor)
    → find_lane d.lane ds ≡ o
    → IsFound (d ∷ ds) (found_or d o)
unfolding find_lane
first-IsFound d ds none h = ground (arith, text_eq_refl d.lane)
first-IsFound d ds (some e) h =
    let found : find_lane e.lane ds ≡ some e =
      ap (λ (lane : Text). find_lane lane ds) (find_lane-lane d.lane ds e h) ∙ h in
    ground arith

other-IsFound :
    (d e : WorkerDescriptor) (ds : List WorkerDescriptor)
    → text_eq e.lane d.lane ≡ false
    → IsFound ds e
    → IsFound (d ∷ ds) e
unfolding find_lane
other-IsFound d e ds h f = ground (arith, text_eq_iff e.lane d.lane, text_eq_iff d.lane e.lane)

-- Every lane that is listed is the one that is found by its name.
pub list-IsFound : (ds : List WorkerDescriptor) → All (IsFound ds) (list ds)
unfolding list other_lanes
list-IsFound [] = tt
list-IsFound (d ∷ ds) = (
  first-IsFound d ds (find_lane d.lane ds) refl,
  All-of_at (other_lanes d.lane (list ds)) (λ e i.
      let (j, other) =
        At-filter_inv (λ (e : WorkerDescriptor). not (text_eq e.lane d.lane)) e (list ds) i in
      other-IsFound d e ds (ground arith) (All-at (IsFound ds) (list-IsFound ds) j)),
)
