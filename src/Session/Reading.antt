-- ===== src/Session/Reading.antt =====
-- A session that reads a frame delivers the message.
use mathlib.Core.List.{append-nil, append_assoc}
use peerpaste.Base.{
  ltb, length, length-append, take, drop, take-append, drop-append, Bytes, ℕ, ◌%◌, ◌<◌, ◌≡◌, refl,
  sym, ap, ◌∙◌, false, [], ◌∷◌, ◌++◌, arith,
}
use peerpaste.Session.Framing.{decode_header-encode_header, length-encode_header}
use peerpaste.Session.{
  header_size, u32_mod, encode_header, decode_header, encode_frame, Reader, do_read_message,
  handle_read_header, handle_read_message, poll, idle, reading_header, reading_message,
}

poll-header :
    (r : Reader) (n : ℕ) (rest : Bytes)
    → r.phase ≡ reading_header
    → r.incoming ≡ encode_header n ++ rest
    → n < u32_mod
    → poll r ≡ record r { readbuf = encode_header n; phase = reading_message n; incoming = rest }
unfolding poll handle_read_header do_read_message encode_header
poll-header r n rest h e b = rw (h, poll) (rw e (rw (not_short, fits, whole, left) refl))
  where
    fits : take header_size (encode_header n ++ rest) ≡ encode_header n
    fits = take-append (encode_header n) rest

    left : drop header_size (encode_header n ++ rest) ≡ rest
    left = drop-append (encode_header n) rest

    not_short : ltb (length (encode_header n ++ rest)) header_size ≡ false
    not_short = ground (arith, length-append (encode_header n) rest, length-encode_header n)

    whole : decode_header (encode_header n) ≡ n
    whole =
        ap decode_header (sym (append-nil (encode_header n)))
        ∙ decode_header-encode_header n []
        ∙ omega arith

poll-message :
    (r : Reader) (m rest : Bytes)
    → poll (record r {
      readbuf = encode_header (length m);
      phase = reading_message (length m);
      incoming = m ++ rest;
    })
      ≡ record r {
        readbuf = encode_header (length m) ++ m;
        phase = idle;
        incoming = rest;
        msg_queue = r.msg_queue ++ m ∷ [];
      }
unfolding poll handle_read_message encode_header
poll-message r m rest = rw (not_short, take-append m rest, drop-append m rest) refl
  where
    not_short : ltb (length (m ++ rest)) (length m) ≡ false
    not_short = ground (arith, length-append m rest)

-- A session that reads, with a whole frame on its stream, delivers exactly the message, leaves what
-- follows on the stream, and reads no further by itself.
pub poll-encode_frame :
    (r : Reader) (m rest : Bytes)
    → r.phase ≡ reading_header
    → r.incoming ≡ encode_frame m ++ rest
    → length m < u32_mod
    → poll (poll r) ≡ record r {
      readbuf = encode_frame m;
      phase = idle;
      incoming = rest;
      msg_queue = r.msg_queue ++ m ∷ [];
    }
unfolding encode_frame
poll-encode_frame r m rest h e b =
    rw
      (poll-header r (length m % u32_mod) (m ++ rest) h
        (e ∙ append_assoc (encode_header (length m % u32_mod)) m rest) (omega arith))
      (rw same (poll-message r m rest))
  where
    same : length m % u32_mod ≡ length m
    same = omega arith
