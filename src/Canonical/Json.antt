-- ===== src/Canonical/Json.antt =====
-- `canonical_bytes`: `json.dumps` with sorted keys, ASCII escapes and the default separators.
-- `real` is a float, by the text of its `repr`. No value of the program's payloads needs `default`.
use apichain_backend.Base.{
  ℕ, ◌+◌, ◌-◌, ◌/◌, ◌%◌, Bool, true, false, ◌&&◌, ◌||◌, List, [], ◌∷◌, ◌++◌, ltb, leb, ◌==◌,
  if◌then◌else◌,
}
use apichain_backend.Base.Bytes.{Bytes}
use apichain_backend.Canonical.Text.{Text, codes, hex_digit, decimal}

mutual
  pub data Json : Type 0 where
    null : Json
    bool : Bool → Json
    num : ℕ → Json
    real : Text → Json
    text : Text → Json
    arr : Items → Json
    obj : Fields → Json

  pub data Items : Type 0 where
    nil : Items
    cons : Json → Items → Items

  pub data Fields : Type 0 where
    end : Fields
    field : Text → Json → Fields → Fields

-- `\uXXXX`
abbrev unicode_escape : ℕ → Text
unicode_escape c =
    92
    ∷ 117
    ∷ hex_digit (c / 4096 % 16)
    ∷ hex_digit (c / 256 % 16)
    ∷ hex_digit (c / 16 % 16)
    ∷ hex_digit (c % 16)
    ∷ []

-- One character between quotes: quotes, the backslash and control characters are escaped, and so
-- is all that is not printable ASCII, by a surrogate pair above U+FFFF.
unfoldable pub escape : ℕ → Text
escape c =
    if c == 34
    then 92 ∷ 34 ∷ []
    else if c == 92
    then 92 ∷ 92 ∷ []
    else if c == 10
    then 92 ∷ 110 ∷ []
    else if c == 13
    then 92 ∷ 114 ∷ []
    else if c == 9
    then 92 ∷ 116 ∷ []
    else if c == 12
    then 92 ∷ 102 ∷ []
    else if c == 8
    then 92 ∷ 98 ∷ []
    else if leb 32 c && leb c 126
    then c ∷ []
    else if ltb c 65536
    then unicode_escape c
    else unicode_escape (55296 + (c - 65536) / 1024 % 1024)
      ++ unicode_escape (56320 + (c - 65536) % 1024)

escape_all : Text → Text
escape_all [] = []
escape_all (c ∷ cs) = escape c ++ escape_all cs

unfoldable pub quote : Text → Text
unfolding escape escape_all
quote s = 34 ∷ escape_all s ++ 34 ∷ []

-- Keys are compared by their code points.
unfoldable pub key_leb : Text → Text → Bool
key_leb [] t = true
key_leb (c ∷ s) [] = false
key_leb (c ∷ s) (d ∷ t) = ltb c d || (c == d && key_leb s t)

-- A printed entry of an object: its key and its value.
abbrev pub Entry : Type 0
Entry = Text × Text

unfoldable pub insert_entry : Entry → List Entry → List Entry
unfolding key_leb
insert_entry e [] = e ∷ []
insert_entry e (f ∷ fs) = if key_leb e.0 f.0 then e ∷ f ∷ fs else f ∷ insert_entry e fs

-- `sort_keys=True`
unfoldable pub sort_entries : List Entry → List Entry
unfolding insert_entry
sort_entries [] = []
sort_entries (e ∷ es) = insert_entry e (sort_entries es)

unfoldable pub print_entries : List Entry → Text
unfolding quote
print_entries [] = []
print_entries ((k, v) ∷ []) = quote k ++ 58 ∷ 32 ∷ v
print_entries ((k, v) ∷ e ∷ es) = quote k ++ 58 ∷ 32 ∷ v ++ 44 ∷ 32 ∷ print_entries (e ∷ es)

unfoldable mutual
  unfolding sort_entries print_entries quote decimal

  pub dumps : Json → Text
  dumps null = codes "null"
  dumps (bool b) = if b then codes "true" else codes "false"
  dumps (num n) = decimal n
  dumps (real r) = r
  dumps (text s) = quote s
  dumps (arr xs) = 91 ∷ dumps_items xs
  dumps (obj fs) = 123 ∷ print_entries (sort_entries (dumps_fields fs)) ++ 125 ∷ []

  -- The items and the closing bracket.
  pub dumps_items : Items → Text
  dumps_items nil = 93 ∷ []
  dumps_items (cons x xs) = dumps x ++ dumps_rest xs

  pub dumps_rest : Items → Text
  dumps_rest nil = 93 ∷ []
  dumps_rest (cons x xs) = 44 ∷ 32 ∷ dumps x ++ dumps_rest xs

  pub dumps_fields : Fields → List Entry
  dumps_fields end = []
  dumps_fields (field k v fs) = (k, dumps v) ∷ dumps_fields fs

-- What is printed is ASCII, so its UTF-8 bytes are its code points.
unfoldable pub canonical_bytes : Json → Bytes
unfolding dumps
canonical_bytes value = dumps value

unfoldable pub compute_data_hash : (Bytes → Bytes) → Json → Bytes
unfolding canonical_bytes
compute_data_hash keccak value = keccak (canonical_bytes value)
