-- ===== src/Packet/Tests.antt =====
-- The theorems on packets, at packets of two bytes.
use iocp_server.Base.{◌≡◌, refl, ◌≢◌, false, true, [], ◌∷◌, none, some, arith}
use iocp_server.Overlapped.{block}
use iocp_server.Memory.{World, ◌>>=◌, update}
use iocp_server.Memory.Laws.{IsTidy}
use iocp_server.Packet.{Packet, copy, assign, destroy}
use iocp_server.Packet.Laws.{Owns, with_block, without_block, copy_lem, assign_lem, copy-destroy}

-- Two blocks, at 0 and 1, and client 3's array.
abbrev two_blocks : World
two_blocks = record {
  next = 2;
  blocks = update (update (λ a. none) 0 (some (5 ∷ 6 ∷ []))) 1 (some (7 ∷ []));
  contexts = λ a. none;
  received = update (λ a. none) 3 (some (1 ∷ 2 ∷ 3 ∷ []));
  events = [];
}

abbrev first : Packet
first = record { client_id = 3; buffer = block 0; data_size = 2 }

abbrev second : Packet
second = record { client_id = 4; buffer = block 1; data_size = 1 }

two_blocks-IsTidy : IsTidy two_blocks
two_blocks-IsTidy a h = ground arith

first-Owns : Owns two_blocks first 0 (5 ∷ 6 ∷ [])
first-Owns = record { at = refl; holds = refl; sized = refl }

second-Owns : Owns two_blocks second 1 (7 ∷ [])
second-Owns = record { at = refl; holds = refl; sized = refl }

copy_lem_example :
    (copy first two_blocks
      ≡ some (record first { buffer = block 2 }, with_block two_blocks (5 ∷ 6 ∷ [])))
    × Owns (with_block two_blocks (5 ∷ 6 ∷ [])) (record first { buffer = block 2 }) 2 (5 ∷ 6 ∷ [])
    × Owns (with_block two_blocks (5 ∷ 6 ∷ [])) first 0 (5 ∷ 6 ∷ [])
    × (two_blocks.next ≢ 0)
copy_lem_example = copy_lem two_blocks first 0 (5 ∷ 6 ∷ []) two_blocks-IsTidy first-Owns

assign_lem_example :
    let w = with_block (without_block two_blocks 0) (7 ∷ []) in
    (assign false first second two_blocks ≡ some (record second { buffer = block 2 }, w))
    × Owns w second 1 (7 ∷ [])
    × (w.blocks 0 ≡ none)
    × (assign true first first two_blocks ≡ some (first, two_blocks))
assign_lem_example =
    assign_lem two_blocks first second 0 1 (5 ∷ 6 ∷ []) (7 ∷ []) two_blocks-IsTidy first-Owns
      second-Owns (omega arith)

copy-destroy_example :
    (copy first >>= destroy) two_blocks ≡ some (tt, record two_blocks { next = 3 })
copy-destroy_example = copy-destroy two_blocks first 0 (5 ∷ 6 ∷ []) two_blocks-IsTidy first-Owns
