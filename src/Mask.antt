-- ===== src/Mask.antt =====
-- `MaskToken` of src/config.go and `truncateBody` of src/http.go, over the bytes of a string.
use umans_dash_go.Prelude.{
  ℕ, ◌-◌, ◌≤◌, [], ◌++◌, arith, leb, ◌==◌, if◌then◌else◌, Bytes, codes, length, take, drop,
  length-append, length-take, length-drop,
}

abbrev dots : Bytes
dots = codes "..."

unfoldable pub mask_token : Bytes → Bytes
mask_token key =
    if length key == 0
    then []
    else if leb (length key) 14
    then (if leb (length key) 4
        then take 1 key ++ dots
        else take 1 key ++ (dots ++ drop (length key - 2) key))
    else take 10 key ++ (dots ++ drop (length key - 4) key)

unfoldable pub truncate_body : Bytes → ℕ → Bytes
truncate_body s n = if leb (length s) n then s else take n s ++ codes "...[truncated]"

-- A masked key is never longer than 17 bytes.
pub length-mask_token-le : (key : Bytes) → length (mask_token key) ≤ 17
unfolding mask_token
length-mask_token-le key = ground (
  arith,
  length-append (take 1 key) dots,
  length-append (take 1 key) (dots ++ drop (length key - 2) key),
  length-append (take 10 key) (dots ++ drop (length key - 4) key),
  length-take 1 key,
  length-take 10 key,
  length-drop (length key - 2) key,
  length-drop (length key - 4) key,
)
