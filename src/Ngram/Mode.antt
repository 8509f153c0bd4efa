-- ===== src/Ngram/Mode.antt =====
-- core/ngram_table.cpp, `NgramTable::mode_name` and `NgramTable::parse_mode`.
use questwend.Prelude.{Bytes, codes, ◌||◌, Option, none, some, if◌then◌else◌, bytes_eq}

-- `NgramTable::Mode`
pub data Mode : Type 0 where
  off : Mode
  disk : Mode
  ram : Mode

unfoldable pub mode_name : Mode → Bytes
mode_name Mode.off = codes "off"
mode_name Mode.disk = codes "disk"
mode_name Mode.ram = codes "ram"

-- `none` where the source returns false and leaves `out`.
unfoldable pub parse_mode : Bytes → Option Mode
parse_mode s =
    if bytes_eq s (codes "off") || (bytes_eq s (codes "0") || bytes_eq s (codes "none"))
    then some Mode.off
    else if bytes_eq s (codes "disk") || bytes_eq s (codes "ssd")
    then some Mode.disk
    else if bytes_eq s (codes "ram") || bytes_eq s (codes "mem")
    then some Mode.ram
    else none
