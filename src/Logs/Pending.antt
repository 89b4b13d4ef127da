-- ===== src/Logs/Pending.antt =====
-- What `consume_stream` delivers: the lines, independently of the chunks, and the bound on the buffer.
use zju_connect_gui.Base.{
  ◌-◌, ◌≤◌, ◌≡◌, ◌∙◌, refl, ap, sym, List, [], ◌∷◌, ◌++◌, append_assoc, append-nil, Bool, true,
  false, arith, length, length-drop, if◌then◌else◌, keep, keep-append, not, map,
}
use zju_connect_gui.Text.{Text, trim, is_empty}
use zju_connect_gui.Logs.{
  Bytes, max_pending_bytes, cap_pending, drain_lines, Delivery, on_line, on_partial, deliver_lines,
  unless_blank, on_chunk, consume_from, consume_stream,
}
use zju_connect_gui.Logs.Lines.{
  has_bytes, lines_of, lines_of-append, lines_of_rest, drain_lines_lem,
}

-- After every chunk the buffer holds at most 64 KiB.
pub length-on_chunk :
    (decode : Bytes → Text) (pending chunk : Bytes)
    → length (on_chunk decode pending chunk).0 ≤ max_pending_bytes
unfolding on_chunk
length-on_chunk decode pending chunk = capped (drain_lines (pending ++ chunk)).1
  where
    capped : (rest : Bytes) → length (cap_pending rest) ≤ max_pending_bytes
    capped rest =
        unfold cap_pending in ground (arith, length-drop (length rest - max_pending_bytes) rest)

-- The texts that are delivered as lines.
abbrev pub line_texts : List Delivery → List Text
line_texts [] = []
line_texts (on_line t ∷ ds) = t ∷ line_texts ds
line_texts (on_partial t ∷ ds) = line_texts ds

-- What `handle_log_line` and the end of the stream do not leave out.
abbrev pub says_something : Text → Bool
says_something t = not (is_empty (trim t))

abbrev pub concat_chunks : List Bytes → Bytes
concat_chunks [] = []
concat_chunks (c ∷ cs) = c ++ concat_chunks cs

-- No unfinished line ever grows past the limit.
abbrev pub IsWithinLimit : Bytes → List Bytes → Type 0
IsWithinLimit pending [] = Unit
IsWithinLimit pending (c ∷ cs) =
    (length (lines_of (pending ++ c)).1 ≤ max_pending_bytes)
    × IsWithinLimit (lines_of (pending ++ c)).1 cs

line_texts-append : (ds es : List Delivery) → line_texts (ds ++ es) ≡ line_texts ds ++ line_texts es
line_texts-append [] es = refl
line_texts-append (on_line t ∷ ds) es = ap (λ ts. t ∷ ts) (line_texts-append ds es)
line_texts-append (on_partial t ∷ ds) es = line_texts-append ds es

cap_pending_short : (s : Bytes) → length s ≤ max_pending_bytes → cap_pending s ≡ s
unfolding cap_pending
cap_pending_short s h = ground arith

blank-nil : says_something [] ≡ false
unfolding trim is_empty
blank-nil = refl

module _ (decode : Bytes → Text) (decode-nil : decode [] ≡ []) where
  line_texts-deliver_lines :
      (ls : List Bytes) → line_texts (deliver_lines decode ls) ≡ map decode ls
  line_texts-deliver_lines [] = refl
  line_texts-deliver_lines (l ∷ ls) = ap (λ ts. decode l ∷ ts) (line_texts-deliver_lines ls)

  -- Lines without bytes say nothing.
  keep-has_bytes :
      (ls : List Bytes)
      → keep says_something (map decode ls) ≡ keep says_something (map decode (keep has_bytes ls))
  keep-has_bytes [] = refl
  keep-has_bytes ([] ∷ ls) = rw (decode-nil, blank-nil) (keep-has_bytes ls)
  keep-has_bytes ((b ∷ l) ∷ ls) = ground (arith, keep-has_bytes ls)

  partial_texts : (s : Bytes) → line_texts (unless_blank decode on_partial s) ≡ []
  partial_texts s = ground arith

  line_texts_end :
      (s : Bytes)
      → keep says_something (line_texts (unless_blank decode on_line s))
        ≡ keep says_something (decode s ∷ [])
  line_texts_end s = ground arith

  -- One round: the lines of the buffer, and the new rest.
  on_chunk_lem :
      (pending chunk : Bytes)
      → length (lines_of (pending ++ chunk)).1 ≤ max_pending_bytes
      → ((on_chunk decode pending chunk).0 ≡ (lines_of (pending ++ chunk)).1)
        × (keep says_something (line_texts (on_chunk decode pending chunk).1)
            ≡ keep says_something (map decode (lines_of (pending ++ chunk)).0))
  unfolding on_chunk
  on_chunk_lem pending chunk short =
      let s = pending ++ chunk in
      let (same, rest) = drain_lines_lem s in
      (
        ap cap_pending rest ∙ cap_pending_short (lines_of s).1 short,
        ap (keep says_something) (
              line_texts-append (deliver_lines decode (drain_lines s).0)
                (unless_blank decode on_partial (cap_pending (drain_lines s).1))
              ∙ (ap (λ ts. line_texts (deliver_lines decode (drain_lines s).0) ++ ts)
                    (partial_texts (cap_pending (drain_lines s).1))
                  ∙ (append-nil _ ∙ line_texts-deliver_lines (drain_lines s).0)))
            ∙ (keep-has_bytes (drain_lines s).0
                ∙ (ap (λ ls. keep says_something (map decode ls)) same
                    ∙ sym (keep-has_bytes (lines_of s).0))),
      )

  -- The texts of a whole stream: its finished lines, and at its end the unfinished one.
  abbrev pub stream_texts : (at_end : Bool) → Bytes → List Text
  stream_texts at_end s =
      map decode (lines_of s).0 ++ (if at_end then decode (lines_of s).1 ∷ [] else [])

  map-append_lem : (xs ys : List Bytes) → map decode (xs ++ ys) ≡ map decode xs ++ map decode ys
  map-append_lem [] ys = refl
  map-append_lem (x ∷ xs) ys = ap (λ t. decode x ∷ t) (map-append_lem xs ys)

  -- The texts of two parts: the lines of the first, then those of what is left with the second.
  stream_texts-append :
      (at_end : Bool) (s t : Bytes)
      → stream_texts at_end (s ++ t)
        ≡ map decode (lines_of s).0 ++ stream_texts at_end ((lines_of s).1 ++ t)
  stream_texts-append at_end s t =
      ap (λ p. map decode p.0 ++ (if at_end then decode p.1 ∷ [] else [])) (lines_of-append s t)
      ∙ (ap (λ ts. ts ++ (if at_end then decode (lines_of ((lines_of s).1 ++ t)).1 ∷ [] else []))
            (map-append_lem (lines_of s).0 (lines_of ((lines_of s).1 ++ t)).0)
          ∙ append_assoc (map decode (lines_of s).0) _ _)

  stream_texts_plain :
      (at_end : Bool) (s : Bytes)
      → lines_of s ≡ ([], s)
      → stream_texts at_end s ≡ (if at_end then decode s ∷ [] else [])
  stream_texts_plain at_end s plain =
      ap (λ p. map decode p.0 ++ (if at_end then decode p.1 ∷ [] else [])) plain

  end_texts :
      (at_end : Bool) (s : Bytes)
      → keep says_something (line_texts (if at_end then unless_blank decode on_line s else []))
        ≡ keep says_something (if at_end then decode s ∷ [] else [])
  end_texts true s = line_texts_end s
  end_texts false s = refl

  consume_from_lines :
      (at_end : Bool) (pending : Bytes) (chunks : List Bytes)
      → lines_of pending ≡ ([], pending)
      → IsWithinLimit pending chunks
      → keep says_something (line_texts (consume_from decode at_end pending chunks))
        ≡ keep says_something (stream_texts at_end (pending ++ concat_chunks chunks))
  unfolding consume_from
  consume_from_lines at_end pending [] plain h =
      end_texts at_end pending
      ∙ ap (keep says_something) (
          sym (stream_texts_plain at_end pending plain)
          ∙ ap (stream_texts at_end) (sym (append-nil pending)))
  consume_from_lines at_end pending (c ∷ cs) plain (short, h) =
      let s = pending ++ c in
      let (kept, texts) = on_chunk_lem pending c short in
      let later = consume_from_lines at_end (lines_of s).1 cs (lines_of_rest s) h in
      ap (keep says_something) (
        line_texts-append (on_chunk decode pending c).1
          (consume_from decode at_end (on_chunk decode pending c).0 cs))
      ∙ (keep-append says_something (line_texts (on_chunk decode pending c).1) _
          ∙ (ap
                (λ k.
                  keep says_something (line_texts (on_chunk decode pending c).1)
                  ++ keep says_something (line_texts (consume_from decode at_end k cs)))
                kept
              ∙ (ap
                    (λ ts.
                      ts
                      ++ keep says_something
                          (line_texts (consume_from decode at_end (lines_of s).1 cs)))
                    texts
                  ∙ (ap (λ ts. keep says_something (map decode (lines_of s).0) ++ ts) later
                      ∙ (sym (keep-append says_something (map decode (lines_of s).0) _)
                          ∙ ap (keep says_something) (
                              sym (stream_texts-append at_end s (concat_chunks cs))
                              ∙ ap (stream_texts at_end)
                                  (append_assoc pending c (concat_chunks cs))))))))

  -- Whatever the chunks a child's output is read in, and whatever the decoder, if it turns no bytes
  -- into the empty text and no unfinished line ever exceeds the limit of 64 KiB, then the lines that
  -- are delivered and are not blank are those of the whole output cut at its newline bytes, in order,
  -- the unfinished last one included when the end of the stream is reached.
  pub consume_stream_lines :
      (at_end : Bool) (chunks : List Bytes)
      → IsWithinLimit [] chunks
      → keep says_something (line_texts (consume_stream decode at_end chunks))
        ≡ keep says_something (stream_texts at_end (concat_chunks chunks))
  unfolding consume_stream lines_of
  consume_stream_lines at_end chunks h = consume_from_lines at_end [] chunks refl h
