-- ===== src/Ring.antt =====
-- `util::between` of src/cryptowrapper.cpp: the open arc of the identifier ring.
pub mod Arc
use peerpaste.Base.{Bytes, bytes_lt, Bool, ◌&&◌, ◌||◌, if◌then◌else◌}

unfoldable pub between : Bytes → Bytes → Bytes → Bool
between id_1 id_2 id_3 =
    if bytes_lt id_1 id_3
    then bytes_lt id_1 id_2 && bytes_lt id_2 id_3
    else bytes_lt id_1 id_2 || bytes_lt id_2 id_3
