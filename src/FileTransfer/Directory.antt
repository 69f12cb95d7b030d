-- ===== src/FileTransfer/Directory.antt =====
-- `FileTransferEngine::listDirectory` of libs/file_transfer/src/FileTransferEngine.cpp. What the
-- directory iterator yields is an argument, and so is the current path. `std::sort` is insertion sort:
-- no two entries of a directory have one name, so that there is one sorted order.
use remote_access_platform.Prelude.{
  ℕ, ◌<◌, ◌⊎◌, ◌∙◌, sym, ◌≡◌, inl, inr, refl, List, [], ◌∷◌, map, Bool, true, false, ◌&&◌, ◌||◌,
  not, Option, none, some, ltb, ◌==◌, if◌then◌else◌, All, arith, is_empty, Bool-cases,
}
use mathlib.Core.List.{Perm}
use mathlib.Core.List.Perm
use native.Mathlib.Decide.{dec_lt}

pub record DirectoryItem : Type 0 where
  pub name : List ℕ
  pub size : ℕ
  pub is_directory : Bool
  pub modified_time : ℕ

-- What the iterator tells of an entry.
pub record Entry : Type 0 where
  pub filename : List ℕ
  pub entry_is_directory : Bool
  pub is_regular_file : Bool
  pub file_size : ℕ
  pub last_write_time : ℕ

unfoldable pub item_of : Entry → DirectoryItem
item_of e = record {
  name = e.filename;
  size = if not e.entry_is_directory && e.is_regular_file then e.file_size else 0;
  is_directory = e.entry_is_directory;
  modified_time = e.last_write_time;
}

-- `std::string`'s `<`
unfoldable pub name_less : List ℕ → List ℕ → Bool
name_less [] [] = false
name_less [] (y ∷ ys) = true
name_less (x ∷ xs) [] = false
name_less (x ∷ xs) (y ∷ ys) = ltb x y || x == y && name_less xs ys

-- The comparison given to `std::sort`: directories first.
unfoldable pub item_less : DirectoryItem → DirectoryItem → Bool
item_less a b =
    if a.is_directory && not b.is_directory || b.is_directory && not a.is_directory
    then a.is_directory && not b.is_directory
    else name_less a.name b.name

unfoldable pub insert_item : DirectoryItem → List DirectoryItem → List DirectoryItem
insert_item a [] = a ∷ []
insert_item a (x ∷ xs) = if item_less a x then a ∷ (x ∷ xs) else x ∷ insert_item a xs

unfoldable pub sort_items : List DirectoryItem → List DirectoryItem
sort_items [] = []
sort_items (x ∷ xs) = insert_item x (sort_items xs)

-- `none` is a path that is not there or is no directory.
unfoldable pub list_directory :
    (List ℕ → Option (List Entry)) → List ℕ → List ℕ → List DirectoryItem
list_directory entries_of current_path dir_path =
    elim (entries_of (if is_empty dir_path then current_path else dir_path)) [
      | none ↦ []
      | some entries ↦ sort_items (map item_of entries)
    ]

name_less-asymm : (xs ys : List ℕ) → name_less xs ys ≡ true → name_less ys xs ≡ false
unfolding name_less
name_less-asymm [] [] h = cc
name_less-asymm [] (y ∷ ys) h = refl
name_less-asymm (x ∷ xs) [] h = cc
name_less-asymm (x ∷ xs) (y ∷ ys) h = ground (arith, name_less-asymm xs ys)

name_less_trans :
    (xs ys zs : List ℕ) → name_less xs ys ≡ true → name_less ys zs ≡ true → name_less xs zs ≡ true
unfolding name_less
name_less_trans [] [] zs h k = cc
name_less_trans [] (y ∷ ys) [] h k = cc
name_less_trans [] (y ∷ ys) (z ∷ zs) h k = refl
name_less_trans (x ∷ xs) [] zs h k = cc
name_less_trans (x ∷ xs) (y ∷ ys) [] h k = cc
name_less_trans (x ∷ xs) (y ∷ ys) (z ∷ zs) h k = ground (arith, name_less_trans xs ys zs)

item_less-asymm : (a b : DirectoryItem) → item_less a b ≡ true → item_less b a ≡ false
unfolding item_less
item_less-asymm a b h = ground (arith, name_less-asymm a.name b.name)

item_less_trans :
    (a b c : DirectoryItem) → item_less a b ≡ true → item_less b c ≡ true → item_less a c ≡ true
unfolding item_less
item_less_trans a b c h k = ground (arith, name_less_trans a.name b.name c.name)

-- No item comes before one that is less.
abbrev IsSorted : List DirectoryItem → Type 0
IsSorted [] = Unit {0}
IsSorted (x ∷ xs) = All (λ y. item_less y x ≡ false) xs × IsSorted xs

insert_item-perm : (a : DirectoryItem) (xs : List DirectoryItem) → Perm (insert_item a xs) (a ∷ xs)
unfolding insert_item
insert_item-perm a [] = Perm.refl (a ∷ [])
insert_item-perm a (x ∷ xs) = elim (Bool-cases (item_less a x)) [
  | inl y ↦ rw y (Perm.refl (a ∷ (x ∷ xs)))
  | inr n ↦ rw n (Perm.trans (Perm.cons x (insert_item-perm a xs)) (Perm.swap a x xs))
]

sort_items-perm : (xs : List DirectoryItem) → Perm (sort_items xs) xs
unfolding sort_items
sort_items-perm [] = Perm.refl []
sort_items-perm (x ∷ xs) =
    Perm.trans (insert_item-perm x (sort_items xs)) (Perm.cons x (sort_items-perm xs))

insert_item-All :
    (P : DirectoryItem → Type 0) (a : DirectoryItem) (xs : List DirectoryItem)
    → P a
    → All P xs
    → All P (insert_item a xs)
unfolding insert_item
insert_item-All P a [] pa h = (pa, tt)
insert_item-All P a (x ∷ xs) pa h = elim (Bool-cases (item_less a x)) [
  | inl y ↦ rw y (pa, h)
  | inr n ↦ rw n (h.0, insert_item-All P a xs pa h.1)
]

-- What is not less than `x` is not less than `a`, which is less than `x`.
not_less_below :
    (a x : DirectoryItem) (xs : List DirectoryItem)
    → item_less a x ≡ true
    → All (λ y. item_less y x ≡ false) xs
    → All (λ y. item_less y a ≡ false) xs
not_less_below a x [] h all = tt
not_less_below a x (y ∷ ys) h all =
    (ground (arith, item_less_trans y a x), not_less_below a x ys h all.1)

insert_item-IsSorted :
    (a : DirectoryItem) (xs : List DirectoryItem) → IsSorted xs → IsSorted (insert_item a xs)
unfolding insert_item
insert_item-IsSorted a [] s = (tt, tt)
insert_item-IsSorted a (x ∷ xs) s = elim (Bool-cases (item_less a x)) [
  | inl y ↦ rw y ((item_less-asymm a x y, not_less_below a x xs y s.0), s)
  | inr n ↦
      rw n (insert_item-All (λ y. item_less y x ≡ false) a xs n s.0, insert_item-IsSorted a xs s.1)
]

sort_items-IsSorted : (xs : List DirectoryItem) → IsSorted (sort_items xs)
unfolding sort_items
sort_items-IsSorted [] = tt
sort_items-IsSorted (x ∷ xs) = insert_item-IsSorted x (sort_items xs) (sort_items-IsSorted xs)

-- The order of a listing, whatever the comparison does: by name byte by byte, a front of a name
-- first, and a directory before what is none.
abbrev pub NameLe : List ℕ → List ℕ → Type 0
NameLe [] ys = Unit {0}
NameLe (x ∷ xs) [] = ⊥
NameLe (x ∷ xs) (y ∷ ys) = (x < y) ⊎ ((x ≡ y) × NameLe xs ys)

abbrev pub InOrder : DirectoryItem → DirectoryItem → Type 0
InOrder a b =
    ((a.is_directory ≡ true) × (b.is_directory ≡ false))
    ⊎ ((a.is_directory ≡ b.is_directory) × NameLe a.name b.name)

abbrev pub IsOrdered : List DirectoryItem → Type 0
IsOrdered [] = Unit {0}
IsOrdered (x ∷ xs) = All (InOrder x) xs × IsOrdered xs

not_less-NameLe : (xs ys : List ℕ) → name_less ys xs ≡ false → NameLe xs ys
unfolding name_less
not_less-NameLe [] ys h = tt
not_less-NameLe (x ∷ xs) [] h = cc
not_less-NameLe (x ∷ xs) (y ∷ ys) h = elim (dec_lt x y) [
  | yes l ↦ inl l
  | no n ↦
      (let same : x ≡ y = ground arith in
        let rest : name_less ys xs ≡ false = ground arith in inr (same, not_less-NameLe xs ys rest))
]

not_less-InOrder : (a b : DirectoryItem) → item_less b a ≡ false → InOrder a b
unfolding item_less
not_less-InOrder a b h = elim (Bool-cases a.is_directory) [
  | inl d ↦ elim (Bool-cases b.is_directory) [
    | inl e ↦ inr (d ∙ sym e, not_less-NameLe a.name b.name (ground arith))
    | inr e ↦ inl (d, e)
  ]
  | inr d ↦ elim (Bool-cases b.is_directory) [
    | inl e ↦ absurd (ground arith)
    | inr e ↦ inr (d ∙ sym e, not_less-NameLe a.name b.name (ground arith))
  ]
]

All-InOrder :
    (a : DirectoryItem) (xs : List DirectoryItem)
    → All (λ y. item_less y a ≡ false) xs
    → All (InOrder a) xs
All-InOrder a [] h = tt
All-InOrder a (x ∷ xs) h = (not_less-InOrder a x h.0, All-InOrder a xs h.1)

IsSorted-IsOrdered : (xs : List DirectoryItem) → IsSorted xs → IsOrdered xs
IsSorted-IsOrdered [] h = tt
IsSorted-IsOrdered (x ∷ xs) h = (All-InOrder x xs h.0, IsSorted-IsOrdered xs h.1)

-- The listing of a directory that can be read, which is the current one for an empty path, has one
-- item for every entry, and of two items the one before is a directory and the other is none, or
-- both are of one kind and its name is not above the other's, byte by byte.
pub list_directory_lem :
    (entries_of : List ℕ → Option (List Entry)) (current_path dir_path : List ℕ)
    (entries : List Entry)
    → entries_of (if is_empty dir_path then current_path else dir_path) ≡ some entries
    → Perm (list_directory entries_of current_path dir_path) (map item_of entries)
      × IsOrdered (list_directory entries_of current_path dir_path)
unfolding list_directory
list_directory_lem entries_of current_path dir_path entries h =
    rw (h, list_directory)
      (
        sort_items-perm (map item_of entries),
        IsSorted-IsOrdered (sort_items (map item_of entries))
            (sort_items-IsSorted (map item_of entries)),
      )
