-- ===== src/Server/Json.antt =====
-- JSON documents as encoding/json reads them: a number is its literal, with the literal that the
-- float64 of its value has, none where that is out of range; an object has its members in order.
use evm_rpc.Prelude.{
  Bool, true, false, ◌&&◌, ◌||◌, Option, none, some, ◌==◌, ltb, if◌then◌else◌, Text, text_eq, List,
  [], ◌∷◌, map,
}
use evm_rpc.Api.BlockNumber.{lower}

mutual
  pub data Json : Type 0 where
    null : Json
    boolean : Bool → Json
    number : Text → Option Text → Json
    string : Text → Json
    array : Items → Json
    object : Members → Json

  pub data Items : Type 0 where
    nil : Items
    item : Json → Items → Items

  pub data Members : Type 0 where
    end : Members
    member : Text → Json → Members → Members

-- `[]json.RawMessage`.
unfoldable pub raw_items : Items → List Json
raw_items nil = []
raw_items (item j js) = j ∷ raw_items js

unfoldable pub from_list : List Json → Items
from_list [] = nil
from_list (j ∷ js) = item j (from_list js)

-- A member's name fits a field by its JSON tag, in any case of letters (ASCII).
unfoldable pub names_field : Text → Text → Bool
unfolding lower text_eq
names_field tag name = text_eq (map lower name) tag

-- The order of strings in Go: byte by byte.
unfoldable pub text_ltb : Text → Text → Bool
text_ltb s [] = false
text_ltb [] (d ∷ t) = true
text_ltb (c ∷ s) (d ∷ t) = let rest = text_ltb s t in ltb c d || (c == d) && rest

-- A member of a map, which is printed in the order of its keys; an old one of the name is replaced.
unfoldable pub put_member : Text → Json → Members → Members
put_member name j end = member name j end
put_member name j (member old k ms) =
    let rest = put_member name j ms in
    if text_eq name old
    then member name j ms
    else if text_ltb name old
    then member name j (member old k ms)
    else member old k rest

-- What an `interface{}` holds after a value was decoded into it, as the document that it is printed as,
-- and whether that went without an error: numbers are float64s, and objects maps.
unfoldable mutual
  pub read_interface : Json → Json × Bool
  read_interface (number literal (some float)) = (number float (some float), true)
  read_interface (number literal none) = (null, false)
  read_interface (array js) = let (js', good) = read_items js in (array js', good)
  read_interface (object ms) = let (ms', good) = read_map ms end in (object ms', good)
  read_interface j = (j, true)

  pub read_items : Items → Items × Bool
  read_items nil = (nil, true)
  read_items (item j js) =
      let (v, good) = read_interface j in
      let (vs, rest) = read_items js in (item v vs, good && rest)

  pub read_map : Members → Members → Members × Bool
  read_map end map = (map, true)
  read_map (member name j ms) map =
      let (v, good) = read_interface j in
      let (map', rest) = read_map ms (put_member name v map) in (map', good && rest)
