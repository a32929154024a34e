-- ===== src/Services/OnuId/Tests.antt =====
-- backend/internal/services/zte_gpon_onu_id.go: a port with a gap.
use tikman.Prelude.{ℕ, ◌≡◌, refl, List, [], ◌∷◌}
use tikman.Services.OnuId.{reserved, first_free, resolve_onu_id}
use tikman.Services.OnuId.Free.{IsResolved, resolve_onu_id-IsResolved}

abbrev port : List ℕ
port = 1 ∷ 2 ∷ 4 ∷ []

resolve-port : resolve_onu_id 0 port ≡ reserved 3
unfolding resolve_onu_id first_free
resolve-port = refl

resolve_onu_id-IsResolved_example : IsResolved 0 port (resolve_onu_id 0 port)
resolve_onu_id-IsResolved_example = resolve_onu_id-IsResolved 0 port
