-- ===== src/Program/Port.antt =====
-- The constructor of include/peerpaste/message_handler.hpp takes its port as a `short`, and prints it.
use peerpaste.Base.{
  ltb, if◌then◌else◌, Bytes, to_string, to_string-unsigned, ℕ, ◌-◌, ◌%◌, ◌<◌, ◌≡◌, ◌↔◌, ◌∷◌, arith,
}
use peerpaste.Server.{u16_mod}

-- What a `short` cannot hold.
abbrev pub short_limit : ℕ
short_limit = 32768

unfoldable pub port_text : ℕ → Bytes
port_text port =
    let w : ℕ = port % u16_mod in
    if ltb w short_limit then to_string w else 45 ∷ to_string (u16_mod - w)

-- The text is that of the port which is listened on, if this is small enough.
pub port_text-to_string :
    (port : ℕ) → (port_text port ≡ to_string (port % u16_mod)) ↔ (port % u16_mod < short_limit)
unfolding port_text
port_text-to_string port =
    ground (arith, to_string-unsigned (port % u16_mod) (to_string (u16_mod - port % u16_mod)))
