-- ===== src/Tests/Writers.antt =====
-- The sample configuration, with trees that are lists of keys with a value and the values of children.
use cdnalizerd.Base.{
  ◌≡◌, ◌≢◌, refl, sym, ap, ◌∙◌, inl, inr, Bool, true, false, List, [], ◌∷◌, ◌++◌, Option, none,
  some, if◌then◌else◌, map, Bool-cases,
}
use cdnalizerd.Base.Text.{Text, codes, text_eq, text_eq→eq, eq→text_eq}
use cdnalizerd.Base.Maps.{find, unequal, text_eq-IsEquality}
use cdnalizerd.Config.Reader.{Platform, or_empty, read_config}
use cdnalizerd.Config.Writer.{TreeWriter, write_sample_config}
use cdnalizerd.Config.Writer.RoundTrip.{IsTree, or_else, sample_entry, write_sample_config_read}

abbrev Tree : Type 0
Tree = List (Text × (Text × List Text))

abbrev tree_put : Tree → Text → Text → Tree
tree_put [] key v = (key, (v, [])) ∷ []
tree_put ((k, (u, c)) ∷ t) key v =
    let rest = tree_put t key v in if text_eq k key then (k, (v, c)) ∷ t else (k, (u, c)) ∷ rest

abbrev value_of : Option (Text × List Text) → Option Text
value_of none = none
value_of (some (v, c)) = some v

abbrev children_of : Option (Text × List Text) → Option (List Text)
children_of none = none
children_of (some (v, c)) = some c

abbrev is_true : Option Text → Bool → Bool
is_true none default = default
is_true (some v) default = text_eq v (codes "true")

abbrev written : Tree
written =
    (codes "username", (codes "mister_awesome", []))
    ∷ (codes "apikey", (codes "xxxyyyzzz-long-key", []))
    ∷ (codes "region", (codes "DFW", []))
    ∷ (codes "container", (codes "cloud-files-container", []))
    ∷ (codes "snet", (codes "false", []))
    ∷ (codes "local_dir", (codes "/var/www/mysite/images/", []))
    ∷ (codes "remote_dir", (codes "/images/", []))
    ∷ (
      codes "files-to-ignore",
      ([], codes ".*php$" ∷ codes ".*conf.*xml$" ∷ codes ".*conf.*ini$" ∷ codes ".*tmp$" ∷ []),
    )
    ∷ (
      codes "directories-to-ignore",
      ([], codes "/conf/" ∷ codes "/config/" ∷ codes "/settings/" ∷ codes "/tmp/" ∷ []),
    )
    ∷ []

abbrev trees : Platform
trees = record {
  Regex = Text;
  Ptree = Tree;
  regex = λ t. some t;
  empty_tree = [];
  get = λ t key. value_of (find text_eq t key);
  get_bool = λ t key default. is_true (value_of (find text_eq t key)) default;
  get_children = λ t key. children_of (find text_eq t key);
  read_ini = λ f. none;
  read_json = λ f. some written;
  read_xml = λ f. none;
  read_info = λ f. none;
  iends_with = λ f e. text_eq e (codes ".json");
  is_directory = λ f. some false;
  directory = λ f. none;
}

abbrev tree_values : Tree → List Text
tree_values t = map (λ n. n.1.0) t

abbrev writer : TreeWriter trees
writer = record {
  put = tree_put;
  add = λ t key v. t ++ (key, (v, [])) ∷ [];
  add_child = λ t key child. t ++ (key, ([], tree_values child)) ∷ [];
  print_bool = λ b. if b then codes "true" else codes "false";
  write_ini = λ t. none;
  write_json = λ t. some (codes "{}");
  write_info = λ t. none;
  write_xml = λ t. none;
}

children_or_empty : Option (Text × List Text) → List Text
children_or_empty none = []
children_or_empty (some (v, c)) = c

true_not_false : true ≢ false
true_not_false h = cc

find-tree_put :
    (t : Tree) (key v other : Text)
    → find text_eq (tree_put t key v) other ≡ (
        if text_eq key other
        then some (v, children_or_empty (find text_eq t other))
        else find text_eq t other)
unfolding find children_or_empty
find-tree_put [] key v other = refl
find-tree_put ((k, (u, c)) ∷ t) key v other = elim (Bool-cases (text_eq k key)) [
  | inl e ↦ elim (Bool-cases (text_eq k other)) [
    | inl f ↦ rw (e, f, ← text_eq→eq k key e, f) refl
    | inr f ↦ rw (e, f, ← text_eq→eq k key e, f) refl
  ]
  | inr e ↦ elim (Bool-cases (text_eq k other)) [
    | inl f ↦
        rw
          (
            e,
            f,
            ← text_eq→eq k other f,
            unequal text_eq-IsEquality key k
                (λ p. true_not_false (sym (eq→text_eq k key (sym p)) ∙ e)),
          )
          refl
    | inr f ↦ rw (e, f) (find-tree_put t key v other)
  ]
]

find-add_last :
    (t : Tree) (key other : Text) (x : Text × List Text)
    → find text_eq (t ++ (key, x) ∷ []) other
      ≡ or_else (find text_eq t other) (if text_eq key other then some x else none)
unfolding find
find-add_last [] key other x = refl
find-add_last ((k, y) ∷ t) key other x = elim (Bool-cases (text_eq k other)) [
  | inl f ↦ rw (f) refl
  | inr f ↦ rw (f) (find-add_last t key other x)
]

value_of-put :
    (b : Bool) (v : Text) (c : List Text) (o : Option (Text × List Text))
    → value_of (if b then some (v, c) else o) ≡ (if b then some v else value_of o)
value_of-put true v c o = refl
value_of-put false v c o = refl

children_of-put :
    (b : Bool) (v : Text) (o : Option (Text × List Text))
    → children_of (if b then some (v, children_or_empty o) else o)
      ≡ (if b then some (or_empty trees (children_of o)) else children_of o)
unfolding children_or_empty
children_of-put true v none = refl
children_of-put true v (some n) = refl
children_of-put false v o = refl

value_of-or_else :
    (b : Bool) (o : Option (Text × List Text)) (x : Text × List Text)
    → value_of (or_else o (if b then some x else none))
      ≡ or_else (value_of o) (if b then some x.0 else none)
value_of-or_else true none x = refl
value_of-or_else false none x = refl
value_of-or_else b (some n) x = refl

children_of-or_else :
    (b : Bool) (o : Option (Text × List Text)) (x : Text × List Text)
    → children_of (or_else o (if b then some x else none))
      ≡ or_else (children_of o) (if b then some x.1 else none)
children_of-or_else true none x = refl
children_of-or_else false none x = refl
children_of-or_else b (some n) x = refl

is_true-print_bool :
    (o : Option Text) (b default : Bool) → o ≡ some (writer.print_bool b) → is_true o default ≡ b
unfolding text_eq
is_true-print_bool o true default h = rw (h) refl
is_true-print_bool o false default h = rw (h) refl

tree_values-add :
    (t : Tree) (n : Text × (Text × List Text))
    → tree_values (t ++ n ∷ []) ≡ tree_values t ++ n.1.0 ∷ []
tree_values-add [] n = refl
tree_values-add (m ∷ t) n = ap (◌∷◌ m.1.0) (tree_values-add t n)

writer-IsTree : IsTree writer
unfolding find
writer-IsTree = record {
  value = λ t. [];
  values = tree_values;
  values-empty_tree = refl;
  values-add = λ t key v. tree_values-add t (key, (v, []));
  get-empty_tree = λ key. refl;
  get_children-empty_tree = λ key. refl;
  get-put = λ t key v other k l.
      ap value_of (find-tree_put t key v other) ∙ value_of-put (text_eq key other) v _ _;
  get_children-put = λ t key v other k l.
      ap children_of (find-tree_put t key v other) ∙ children_of-put (text_eq key other) v _;
  get-add_child = λ t child key other k l.
      ap value_of (find-add_last t key other _) ∙ value_of-or_else (text_eq key other) _ _;
  get_children-add_child = λ t child key other k l.
      ap children_of (find-add_last t key other _) ∙ children_of-or_else (text_eq key other) _ _;
  get_bool-print_bool = λ t key b default h. is_true-print_bool _ b default h;
}

write_sample_config_read_example :
    ((write_sample_config writer (λ f. true) (codes "/etc/s.json") []).0 ≡ true)
    × (read_config trees false (codes "/etc/s.json")
        ≡ some (record { entries = sample_entry writer-IsTree false (λ t. t) ∷ [] }))
unfolding write_sample_config text_eq find
write_sample_config_read_example =
    write_sample_config_read writer-IsTree (λ f. true) (λ text. some written) false (λ t. t)
      (codes "/etc/s.json") (codes "{}") [] refl refl refl refl refl refl refl refl
      (refl, (refl, (refl, (refl, tt)))) (refl, (refl, (refl, (refl, tt))))
