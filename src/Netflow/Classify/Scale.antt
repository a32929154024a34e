-- ===== src/Netflow/Classify/Scale.antt =====
-- Counts scaled by the sampling: exact where they are accepted.
use tikman.Prelude.{ℕ, ◌*◌, ◌^◌, ◌≤◌, ◌<◌, ◌≡◌, ◌↔◌, arith, true, some}
use tikman.Netflow.Template.{Flow}
use tikman.Netflow.Classify.{
  RouterMap, Classified, max_count, max_flow_packets, scaled, scale, plausible, place, place_side,
  classify,
}

-- The product counts as in range exactly when it is, also where it does not fit 64 bits, and then it
-- is the true product.
pub scaled_lem :
    (n sampling limit : ℕ)
    → limit < 2 ^ 64
    → ((scaled n sampling limit).1 ≡ true
        → (n * sampling ≤ limit) × ((scaled n sampling limit).0 ≡ n * sampling))
      × (n * sampling ≤ limit → (scaled n sampling limit).1 ≡ true)
unfolding scaled
scaled_lem n sampling limit h = (λ e. (ground arith, ground arith), λ le. ground arith)

place_counts :
    (m : RouterMap) (f : Flow) (bytes packets : ℕ) (c : Classified)
    → place_side m f bytes packets ≡ some c
    → (c.bytes ≡ bytes) × (c.packets ≡ packets)
unfolding place_side place
place_counts m f bytes packets c e = ground arith

-- The counts of a classified flow are those exported times the sampling, with no wrap-around, and are
-- within the bounds of a flow.
pub classify_counts :
    (m : RouterMap) (f : Flow) (c : Classified)
    → classify m f ≡ some c
    → (c.bytes ≡ f.bytes * m.sampling)
      × (c.packets ≡ f.packets * m.sampling)
      × (c.bytes ≤ max_count)
      × (c.packets ≤ max_flow_packets)
unfolding classify scale
classify_counts m f c e = ground (
  arith,
  scaled_lem f.bytes m.sampling max_count,
  scaled_lem f.packets m.sampling max_flow_packets,
  place_counts m f (scaled f.bytes m.sampling max_count).0
      (scaled f.packets m.sampling max_flow_packets).0 c,
)

-- A flow is plausible exactly when both true products are within their bounds.
pub plausible_iff :
    (m : RouterMap) (f : Flow)
    → (plausible m f ≡ true)
      ↔ ((f.bytes * m.sampling ≤ max_count) × (f.packets * m.sampling ≤ max_flow_packets))
unfolding plausible scale
plausible_iff m f = ground (
  arith,
  scaled_lem f.bytes m.sampling max_count,
  scaled_lem f.packets m.sampling max_flow_packets,
)
