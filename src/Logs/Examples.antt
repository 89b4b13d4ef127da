-- ===== src/Logs/Examples.antt =====
-- Two lines read in three chunks, with ASCII bytes decoded one by one.
use zju_connect_gui.Base.{◌≡◌, ◌≤◌, refl, List, [], ◌∷◌, true, arith, length, keep}
use zju_connect_gui.Text.{Text, codes}
use zju_connect_gui.Logs.{Bytes, consume_stream, on_chunk, max_pending_bytes}
use zju_connect_gui.Logs.Lines.{lines_of}
use zju_connect_gui.Logs.Pending.{
  line_texts, says_something, concat_chunks, stream_texts, IsWithinLimit, consume_stream_lines,
  length-on_chunk,
}

abbrev decode : Bytes → Text
decode bytes = bytes

abbrev chunks : List Bytes
chunks = codes "VPN cl" ∷ codes "ient started\r" ∷ codes "\nsms" ∷ []

chunks-IsWithinLimit : IsWithinLimit [] chunks
unfolding lines_of
chunks-IsWithinLimit = (omega arith, (omega arith, (omega arith, tt)))

consume_stream_lines_example :
    keep says_something (line_texts (consume_stream decode true chunks))
    ≡ keep says_something (stream_texts decode refl true (concat_chunks chunks))
consume_stream_lines_example = consume_stream_lines decode refl true chunks chunks-IsWithinLimit

length-on_chunk_example :
    length (on_chunk decode (codes "VPN cl") (codes "ient started\rsms")).0 ≤ max_pending_bytes
length-on_chunk_example = length-on_chunk decode (codes "VPN cl") (codes "ient started\rsms")
