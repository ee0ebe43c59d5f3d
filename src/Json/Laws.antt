-- ===== src/Json/Laws.antt =====
-- Reading an object after a write.
use umans_dash_go.Prelude.{◌≡◌, refl, none, some, arith, if◌then◌else◌, Bytes, same, same_iff}
use umans_dash_go.Json.{Json, Fields, end, field, member, put, drop_key}

pub member-put :
    (k j : Bytes) (v : Json) (m : Fields)
    → member j (put k v m) ≡ (if same k j then some v else member j m)
unfolding member put
member-put k j v end = refl
member-put k j v (field i w m) =
    ground (arith, same_iff k j, same_iff i k, same_iff i j, member-put k j v m)

pub member-drop_key :
    (k j : Bytes) (m : Fields) → member j (drop_key k m) ≡ (if same k j then none else member j m)
unfolding member drop_key
member-drop_key k j end = ground arith
member-drop_key k j (field i w m) =
    ground (arith, same_iff k j, same_iff i k, same_iff i j, member-drop_key k j m)

-- A key that is not there is not deleted.
pub drop_key-absent : (k : Bytes) (m : Fields) → member k m ≡ none → drop_key k m ≡ m
unfolding member drop_key
drop_key-absent k end e = refl
drop_key-absent k (field i w m) e = ground (arith, drop_key-absent k m)

-- Writing what is there changes nothing.
pub put_same : (k : Bytes) (v : Json) (m : Fields) → member k m ≡ some v → put k v m ≡ m
unfolding member put
put_same k v end e = cc
put_same k v (field i w m) e = ground (arith, put_same k v m)

pub put-put : (k : Bytes) (v w : Json) (m : Fields) → put k w (put k v m) ≡ put k w m
unfolding put
put-put k v w end = ground (arith, same_iff k k)
put-put k v w (field i u m) = ground (arith, same_iff i k, put-put k v w m)
