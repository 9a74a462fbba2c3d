-- ===== src/Transport/Pipeline/Examples.antt =====
-- A transfer of three bytes by requests of two, and one that is canceled.
use bigcp.Base.{◌≡◌, refl, none, some, List, [], ◌∷◌, ◌++◌, ok, arith}
use bigcp.Base.Bytes.{Bytes}
use bigcp.Transport.Pipeline.{
  Turn, reader_goes, writer_goes, hasher_goes, goes, interrupted, run_pipe, start_pipe, is_staged,
  transfer_pipelined, returned,
}
use bigcp.Transport.Pipeline.Ordered.{Ordered, transfer_pipelined-Ordered}
use bigcp.Transport.Pipeline.Hang.{cancel_at_close, canceled-hangs}

abbrev three_bytes : Bytes
three_bytes = 7 ∷ 8 ∷ 9 ∷ []

-- The reader's head, its buffer, an interrupted read, the read and the send.
abbrev read_piece : List Turn
read_piece =
    reader_goes (goes 1)
    ∷ reader_goes (goes 1)
    ∷ reader_goes interrupted
    ∷ reader_goes (goes 1)
    ∷ reader_goes (goes 1)
    ∷ []

abbrev hash_piece : List Turn
hash_piece = hasher_goes ∷ hasher_goes ∷ []

-- The writer's poll, the receive, two short writes and the return of the buffer.
abbrev write_piece : List Turn
write_piece =
    writer_goes (goes 1)
    ∷ writer_goes (goes 1)
    ∷ writer_goes (goes 1)
    ∷ writer_goes (goes 1)
    ∷ writer_goes (goes 1)
    ∷ []

abbrev whole_transfer : List Turn
whole_transfer =
    read_piece
    ++ (hash_piece
        ++ (read_piece
            ++ (write_piece
                ++ (hash_piece
                    ++ (write_piece
                        ++ reader_goes (goes 1)
                          ∷ reader_goes (goes 1)
                          ∷ writer_goes (goes 1)
                          ∷ hasher_goes
                          ∷ hasher_goes
                          ∷ [])))))

-- It returns, with three bytes read and written.
whole_transfer-returned :
    returned (transfer_pipelined three_bytes 3 2 3 whole_transfer)
    ≡ some (ok (record { bytes_read = 3; bytes_written = 3 }))
unfolding transfer_pipelined returned run_pipe start_pipe is_staged
whole_transfer-returned = refl

transfer_pipelined-Ordered_example :
    Ordered three_bytes 3 (transfer_pipelined three_bytes 3 2 3 whole_transfer)
transfer_pipelined-Ordered_example =
    transfer_pipelined-Ordered three_bytes 3 2 3 whole_transfer (omega arith)

canceled-hangs_example :
    returned (transfer_pipelined (7 ∷ 8 ∷ []) 2 1 2 (cancel_at_close ++ hasher_goes ∷ [])) ≡ none
canceled-hangs_example = canceled-hangs 7 8 (hasher_goes ∷ [])
