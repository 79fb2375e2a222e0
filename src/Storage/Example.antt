-- ===== src/Storage/Example.antt =====
-- A table as a list of rows, and a writer of lists of texts: what the tests give for the database and
-- the JSON codec.
use velodex.Prelude.{
  ℕ, zero, suc, ◌≡◌, refl, ap, Option, none, some, List, [], ◌∷◌, Str, PartialEq, nat_eq, list_eq,
}
use velodex.Storage.Table.{
  TableApi, lookup, IsDistinct, without, without-IsDistinct, lookup-without, put, put-IsDistinct,
  lookup-put,
}
use velodex.Storage.Quota.Store.{Backend}

module _ (K : Type 0) ⦃e : PartialEq K⦄ where
  abbrev pub rows_api : TableApi K
  rows_api = record {
    Table = λ V. (rows : List (K × V)) × IsDistinct rows;
    fresh = ([], tt);
    get = λ t k. lookup k t.0;
    insert = λ t k v. (put k v t.0, put-IsDistinct k v t.0 t.1);
    remove = λ t k. (without k t.0, without-IsDistinct k t.0 t.1);
    iter = λ t. t.0;
    iter-fresh = refl;
    get-insert = λ t k j v. lookup-put k j v t.0;
    get-remove = λ t k j. lookup-without k j t.0;
    get-iter = λ t k. refl;
    iter-IsDistinct = λ t. t.1;
  }

-- Each text is closed by a zero, and its bytes are one larger.
abbrev pub write_texts : List Str → Str
write_texts [] = []
write_texts ([] ∷ texts) = 0 ∷ write_texts texts
write_texts ((c ∷ text) ∷ texts) = suc c ∷ write_texts (text ∷ texts)

abbrev pub cons_byte : ℕ → Option (List Str) → Option (List Str)
cons_byte c none = none
cons_byte c (some []) = none
cons_byte c (some (text ∷ texts)) = some ((c ∷ text) ∷ texts)

abbrev pub cons_text : Option (List Str) → Option (List Str)
cons_text none = none
cons_text (some texts) = some ([] ∷ texts)

abbrev pub read_texts : Str → Option (List Str)
read_texts [] = some []
read_texts (zero ∷ bytes) = cons_text (read_texts bytes)
read_texts (suc c ∷ bytes) = cons_byte c (read_texts bytes)

pub read_texts-write_texts : (texts : List Str) → read_texts (write_texts texts) ≡ some texts
read_texts-write_texts [] = refl
read_texts-write_texts ([] ∷ texts) = ap cons_text (read_texts-write_texts texts)
read_texts-write_texts ((c ∷ text) ∷ texts) =
    ap (cons_byte c) (read_texts-write_texts (text ∷ texts))

abbrev pub backend : Backend
backend = record {
  texts = rows_api Str;
  numbers = rows_api ℕ;
  to_json = write_texts;
  from_json = read_texts;
  json_round_trip = read_texts-write_texts;
  uuid_text = λ id. id ∷ [];
  uuid_text_injective = λ a b e. cc;
}
