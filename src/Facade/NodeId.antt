-- ===== src/Facade/NodeId.antt =====
-- Node ids of facade/uid.go: four fields in one uint64. The fields stand in bits that do not
-- overlap, so that their bitwise or is their sum; `&` with a mask of k ones is `% 2 ^ k`, and a
-- shift is a multiplication or division by a power of two.
use actorgo.Common.{ℕ, ◌+◌, ◌*◌, ◌/◌, ◌%◌, ◌^◌, ◌<◌, ◌≡◌, arith}

-- NodeTypeShift, WorldIdShift and BigWorldIdShift.
abbrev pub node_type_shift : ℕ
node_type_shift = 18

abbrev pub world_id_shift : ℕ
world_id_shift = 36

abbrev pub big_world_id_shift : ℕ
big_world_id_shift = 54

-- BigWorldIdMask and CommonMask.
abbrev pub big_world_id_mask : ℕ → ℕ
big_world_id_mask v = v % 2 ^ 10

abbrev pub common_mask : ℕ → ℕ
common_mask v = v % 2 ^ 18

unfoldable pub gen_node_id : ℕ → ℕ → ℕ → ℕ → ℕ
gen_node_id big_world world node_type inst =
    big_world_id_mask big_world * 2 ^ big_world_id_shift
    + common_mask world * 2 ^ world_id_shift
    + common_mask node_type * 2 ^ node_type_shift
    + common_mask inst

unfoldable pub get_big_world_id : ℕ → ℕ
get_big_world_id id = big_world_id_mask (id / 2 ^ big_world_id_shift)

unfoldable pub get_world_id : ℕ → ℕ
get_world_id id = common_mask (id / 2 ^ world_id_shift)

unfoldable pub get_node_type : ℕ → ℕ
get_node_type id = common_mask (id / 2 ^ node_type_shift)

unfoldable pub get_node_inst : ℕ → ℕ
get_node_inst id = common_mask id

-- Each field of a generated id reads back as the low bits of what was given, whatever the others
-- are, and the id fits in 64 bits.
pub get-gen_node_id :
    (w z t i : ℕ)
    → (get_big_world_id (gen_node_id w z t i) ≡ w % 2 ^ 10)
      × (get_world_id (gen_node_id w z t i) ≡ z % 2 ^ 18)
      × (get_node_type (gen_node_id w z t i) ≡ t % 2 ^ 18)
      × (get_node_inst (gen_node_id w z t i) ≡ i % 2 ^ 18)
      × (gen_node_id w z t i < 2 ^ 64)
unfolding gen_node_id get_big_world_id get_world_id get_node_type get_node_inst
get-gen_node_id w z t i = (omega arith, omega arith, omega arith, omega arith, omega arith)

-- Every 64-bit id is the one generated from its fields.
pub gen_node_id-get :
    (id : ℕ)
    → id < 2 ^ 64
    → gen_node_id (get_big_world_id id) (get_world_id id) (get_node_type id) (get_node_inst id) ≡ id
unfolding gen_node_id get_big_world_id get_world_id get_node_type get_node_inst
gen_node_id-get id h = omega arith
