-- ===== src/Config/Sample.antt =====
-- A configuration file of four pages, for the tests: each has a picture, but for the upgrading
-- page, which has a progress bar of three images.
use text.Mathlib.Text.{◌==◌}
use openvela_frameworks_syst.Prelude.{
  ℕ, Bool, true, false, Option, none, some, String, List, [], ◌∷◌, if◌then◌else◌,
}
use openvela_frameworks_syst.Prelude.Int.{ℤ, pos}
use openvela_frameworks_syst.Config.Names.{Input}

pub data Node : Type 0 where
  root logo upgrading done failed label progress area number_node mode image_path list first middle
        last :
      Node
  bad_root bad_label : Node

abbrev pub name : Node → String
name logo = "logo_page"
name upgrading = "upgrading_page"
name done = "upgrade_success_page"
name failed = "upgrade_fail_page"
name label = "label_title"
name progress = "progress_bar"
name bad_label = "button"
name first = "0"
name middle = "50"
name last = "100"
name _ = ""

abbrev pub children : Node → List Node
children root = logo ∷ upgrading ∷ done ∷ failed ∷ []
children bad_root = logo ∷ bad_label ∷ []
children logo = label ∷ []
children upgrading = progress ∷ label ∷ []
children done = label ∷ []
children failed = label ∷ []
children list = first ∷ middle ∷ last ∷ []
children _ = []

abbrev pub member : Node → String → Option Node
member label key =
    if key == "area" then some area else if key == "img_src" then some image_path else none
member progress key =
    if key == "area"
    then some area
    else if key == "mode"
    then some mode
    else if key == "img_src_list"
    then some list
    else none
member area key = some number_node
member n key = none

abbrev pub item : Option Node → String → Option Node
item none key = none
item (some n) key = member n key

abbrev pub number : Option Node → Option ℤ
number (some number_node) = some (pos 40)
number n = none

abbrev pub texts : Node → Option String
texts mode = some "bar"
texts image_path = some "/resource/image.bin"
texts n = none

abbrev pub text_of : Option Node → Option String
text_of none = none
text_of (some n) = texts n

abbrev pub is_object : Option Node → Bool
is_object (some label) = true
is_object (some progress) = true
is_object n = false

abbrev pub members : Option Node → List Node
members none = []
members (some n) = children n

abbrev pub decimal : String → ℕ
decimal t = if t == "50" then 50 else if t == "100" then 100 else 0

unfoldable pub input : Input
input = record {
  Node = Node;
  number = number;
  text = text_of;
  is_array = λ n. false;
  is_object = is_object;
  name = name;
  has_name = λ n. true;
  item = item;
  item_exact = item;
  children = members;
  decimal = decimal;
  hexadecimal = λ t. 0;
  image_file = λ path. record { w = 10; h = 20 };
  is_readable = λ path. true;
  read_file = λ path. some path;
  parse = λ content. some (if content == "bad" then bad_root else root);
}

unfoldable pub parsed : input.Node
unfolding input
parsed = root

unfoldable pub upgrading_node : input.Node
unfolding input
upgrading_node = upgrading

unfoldable pub progress_node : input.Node
unfolding input
progress_node = progress
