-- ===== src/Wproxy/ProxyList.antt =====
-- Wproxy.antt: the list of ParseProxy against a plain description of it.
use pxgo.Shared.{
  ◌≡◌, refl, ap, sym, ◌∙◌, true, Option, none, some, List, [], ◌∷◌, ◌++◌, inl, inr, Bool-cases,
  if_both, arith, if◌then◌else◌,
}
use mathlib.Core.List.{append_assoc, append-nil}
use pxgo.Shared.Text.{Text, eq_text, is_space, trim_space}
use pxgo.Shared.Text.Laws.{eq_text_sound}
use pxgo.Shared.Text.Search.{split_at}
use pxgo.Shared.Text.Trim.{contains-trim_space, split_at-contains}
use pxgo.Wproxy.{Platform, Server, ◌>>=◌, is_empty, is_one_of, parse_item, parse_items, parse_proxy}

-- The entries whose key is none of them.
unfoldable pub drop_keys : List Text → List (Server × Text) → List (Server × Text)
unfolding is_one_of
drop_keys seen [] = []
drop_keys seen ((server, key) ∷ entries) =
    let rest = drop_keys seen entries in if is_one_of key seen then rest else (server, key) ∷ rest

-- Each entry but those with a key that an earlier one has.
unfoldable pub keep_first : List (Server × Text) → List (Server × Text)
unfolding drop_keys
keep_first [] = []
keep_first ((server, key) ∷ entries) = (server, key) ∷ drop_keys (key ∷ []) (keep_first entries)

unfoldable pub servers_of : List (Server × Text) → List Server
servers_of [] = []
servers_of ((server, key) ∷ entries) = server ∷ servers_of entries

module _ (p : Platform) where
  -- The entries of all items that are not blank; none if one of them is wrong.
  unfoldable pub all_entries : List Text → Option (List (Server × Text))
  unfolding parse_item trim_space
  all_entries [] = some []
  all_entries (raw ∷ items) =
      let rest = all_entries items in
      if is_empty (trim_space raw)
      then rest
      else parse_item p (trim_space raw) >>= (λ entry. rest >>= (λ entries. some (entry ∷ entries)))

drop-nothing : (entries : List (Server × Text)) → drop_keys [] entries ≡ entries
unfolding drop_keys is_one_of
drop-nothing [] = refl
drop-nothing ((server, key) ∷ entries) = rw (drop-nothing entries) refl

-- Dropping one key and then others is dropping all of them.
drop-drop :
    (key : Text) (seen : List Text) (entries : List (Server × Text))
    → drop_keys seen (drop_keys (key ∷ []) entries) ≡ drop_keys (key ∷ seen) entries
unfolding drop_keys is_one_of
drop-drop key seen [] = refl
drop-drop key seen ((server, k) ∷ entries) = elim (Bool-cases (eq_text k key)) [
  | inl same ↦ rw same (drop-drop key seen entries)
  | inr other ↦ rw (other, drop-drop key seen entries) refl
]

is_one_of-same :
    (k key : Text) (seen : List Text)
    → eq_text k key ≡ true
    → is_one_of key seen ≡ true
    → is_one_of k seen ≡ true
is_one_of-same k key seen same there = ap (λ t. is_one_of t seen) (eq_text_sound k key same) ∙ there

-- A key that is dropped anyway.
drop-seen :
    (key : Text) (seen : List Text) (entries : List (Server × Text))
    → is_one_of key seen ≡ true
    → drop_keys (key ∷ seen) entries ≡ drop_keys seen entries
unfolding drop_keys is_one_of
drop-seen key seen [] there = refl
drop-seen key seen ((server, k) ∷ entries) there = elim (Bool-cases (eq_text k key)) [
  | inl same ↦ rw (same, is_one_of-same k key seen same there) (drop-seen key seen entries there)
  | inr other ↦ rw (other, drop-seen key seen entries there) refl
]

-- What the loop returns for the entries of its items.
abbrev loop_result : List Text → List Server → List (Server × Text) → Option (List Server)
loop_result seen servers entries =
    some (servers ++ servers_of (drop_keys seen (keep_first entries)))

loop_result-cons :
    (server : Server) (key : Text) (seen : List Text) (servers : List Server)
    (entries : List (Server × Text))
    → (if is_one_of key seen
        then loop_result seen servers entries
        else loop_result (key ∷ seen) (servers ++ server ∷ []) entries)
      ≡ loop_result seen servers ((server, key) ∷ entries)
unfolding keep_first servers_of drop_keys
loop_result-cons server key seen servers entries = elim (Bool-cases (is_one_of key seen)) [
  | inl there ↦
      rw
        (
          there,
          drop-drop key seen (keep_first entries),
          drop-seen key seen (keep_first entries) there,
        )
        refl
  | inr new ↦
      rw (new, drop-drop key seen (keep_first entries))
        (ap (λ t. some t)
          (append_assoc servers (server ∷ [])
            (servers_of (drop_keys (key ∷ seen) (keep_first entries)))))
]

module _ (p : Platform) where
  abbrev LoopEq : List Text → Type 0
  LoopEq items =
      (seen : List Text) (servers : List Server)
      → parse_items p items seen servers ≡ all_entries p items >>= loop_result seen servers

  item-eq :
      (items seen : List Text) (servers : List Server)
      → LoopEq items
      → (found : Option (Server × Text))
      → found >>= (λ (server, key).
        if is_one_of key seen
        then parse_items p items seen servers
        else parse_items p items (key ∷ seen) (servers ++ server ∷ []))
        ≡ (found >>= (λ entry. all_entries p items >>= (λ entries. some (entry ∷ entries))))
          >>= loop_result seen servers
  item-eq items seen servers others none = refl
  item-eq items seen servers others (some (server, key)) =
      rw (others seen servers, others (key ∷ seen) (servers ++ server ∷ []))
        (by_entries (all_entries p items))
    where
      by_entries :
          (entries : Option (List (Server × Text)))
          → (if is_one_of key seen
              then entries >>= loop_result seen servers
              else entries >>= loop_result (key ∷ seen) (servers ++ server ∷ []))
            ≡ (entries >>= (λ entries. some ((server, key) ∷ entries))) >>= loop_result seen servers
      by_entries none =
          if_both (λ (x : Option (List Server)). x ≡ none) (is_one_of key seen) _ _ refl refl
      by_entries (some entries) = loop_result-cons server key seen servers entries

  parse_items-eq : (items : List Text) → LoopEq items
  unfolding parse_items all_entries keep_first drop_keys servers_of
  parse_items-eq [] seen servers = ap (λ t. some t) (sym (append-nil servers))
  parse_items-eq (raw ∷ items) seen servers = elim (Bool-cases (is_empty (trim_space raw))) [
    | inl blank ↦ rw blank (parse_items-eq items seen servers)
    | inr real ↦
        rw real (item-eq items seen servers (parse_items-eq items) (parse_item p (trim_space raw)))
  ]

  no_text : (t : Text) → is_empty t ≡ true → t ≡ []
  no_text [] e = refl
  no_text (c ∷ t) e = absurd (ground (arith, e))

  -- A blank text has one item, a blank one.
  all_entries-blank :
      (text : Text)
      → is_empty (trim_space text) ≡ true
      → all_entries p (split_at b',' text) ≡ some []
  unfolding all_entries is_space
  all_entries-blank text blank =
      let absent = contains-trim_space b',' text refl (no_text (trim_space text) blank) in
      rw (split_at-contains b',' text absent, blank) refl

  -- ParseProxy gives the servers of all its items that are not blank, in their order, each key (its
  -- scheme, host in lower case and port) once, and fails exactly if one of the items is wrong.
  pub parse_proxy-keep_first :
      (text : Text)
      → parse_proxy p text
        ≡ all_entries p (split_at b',' text) >>= (λ entries. some (servers_of (keep_first entries)))
  unfolding parse_proxy
  parse_proxy-keep_first text = elim (Bool-cases (is_empty (trim_space text))) [
    | inl blank ↦ rw (blank, all_entries-blank text blank) (unfold keep_first servers_of in refl)
    | inr real ↦
        rw (real, parse_items-eq (split_at b',' text) [] [])
          (by_entries (all_entries p (split_at b',' text)))
  ]
    where
      by_entries :
          (entries : Option (List (Server × Text)))
          → entries >>= loop_result [] []
            ≡ entries >>= (λ entries. some (servers_of (keep_first entries)))
      by_entries none = refl
      by_entries (some entries) = ap (λ x. some (servers_of x)) (drop-nothing (keep_first entries))
