-- ===== src/Stream/Caught.antt =====
-- examples/gateway: a stream learns each status of its order, whatever the interleaving.
use go_boilerplate.Prelude.{◌≡◌, Option, List, [], ◌∷◌, String}
use go_boilerplate.Stream.Gateway.{ReplicaOp, projected, order_of}

-- The events about an order spell its id in one way.
abbrev pub AllSpelled : (String → Option String) → String → List ReplicaOp → Type 0
AllSpelled parse_uuid o [] = Unit
AllSpelled parse_uuid o (projected fault e ∷ ops) =
    (parse_uuid (order_of e) ≡ parse_uuid o → order_of e ≡ o) × AllSpelled parse_uuid o ops
AllSpelled parse_uuid o (op ∷ ops) = AllSpelled parse_uuid o ops
