-- ===== src/Lvgl.antt =====
-- LVGL, as ui/ui_display.c and ui/ui_config_parse.c use it. The library is not part of the
-- repository: it is the parameter `lv`, with its documented behaviour as `LvglLaws`.
pub mod Memory
pub mod Sample
use openvela_frameworks_syst.Prelude.{
  ℕ, ◌≡◌, ◌≢◌, ◌↔◌, Bool, true, false, not, Option, none, some, String, List, [], ◌∷◌, ◌++◌,
  get_elem?, if◌then◌else◌,
}
use openvela_frameworks_syst.Prelude.Int.{ℤ}
use openvela_frameworks_syst.Widget.{Upgrade, num, constructed}

-- What an object is created as: lv_obj_create, lv_img_create, lv_upgrade_create or lv_arc_create.
pub data Kind : Type 0 where
  plain image upgrade_widget arc : Kind

-- lv_align_t, the values that the configuration can ask for.
pub data Align : Type 0 where
  default_align top_left top_mid top_right left_mid center right_mid : Align
  bottom_left bottom_mid bottom_right : Align

-- The calls that only change how an object looks or where it stands.
pub data Style : Type 0 where
  pos size : ℤ → ℤ → Style
  align : Align → Style
  bg_color : ℕ → Style
  no_style full_size bg_cover no_padding : Style

-- The calls, over an unknown state of the display. `children` are the answers of lv_obj_get_child
-- from 0 to lv_obj_get_child_cnt; `parent` is lv_obj_get_parent; `text` is `user_data` read as a
-- string; `upgrade` are the fields of lv_upgrade_t; `set_hidden` adds or clears LV_OBJ_FLAG_HIDDEN;
-- `set_image` is lv_image_set_src with the buffer of the file, which also becomes `user_data`.
pub record Lvgl : Type 1 where
  pub Store : Type 0
  pub Obj : Type 0
  pub same : Obj → Obj → Bool
  pub screen : Obj
  pub children : Store → Obj → List Obj
  pub parent : Store → Obj → Option Obj
  pub text : Store → Obj → Option String
  pub is_upgrade : Store → Obj → Bool
  pub is_visible : Store → Obj → Bool
  pub upgrade : Store → Obj → Upgrade
  pub set_hidden : Obj → Bool → Store → Store
  pub set_text : Obj → String → Store → Store
  pub set_image : Obj → String → Store → Store
  pub style : Style → Obj → Store → Store
  pub put_upgrade : Obj → Upgrade → Store → Store
  pub create : Kind → Obj → Store → Obj × Store
  pub clean : Obj → Store → Store

-- A page: a child of the active screen.
abbrev pub IsPage : (lv : Lvgl) → lv.Store → lv.Obj → Type 0
IsPage lv s o = (i : ℕ) × (get_elem? (lv.children s lv.screen) i ≡ some o)

-- Two states of the display with the same tree, texts and classes.
pub record SameShape (lv : Lvgl) (s s' : lv.Store) : Type 0 where
  pub children : (o : lv.Obj) → lv.children s' o ≡ lv.children s o
  pub parent : (o : lv.Obj) → lv.parent s' o ≡ lv.parent s o
  pub text : (o : lv.Obj) → lv.text s' o ≡ lv.text s o
  pub is_upgrade : (o : lv.Obj) → lv.is_upgrade s' o ≡ lv.is_upgrade s o

-- The widgets are the same, too.
pub record SameTree (lv : Lvgl) (s s' : lv.Store) : Type 0 where
  pub shape : SameShape lv s s'
  pub upgrade : (o : lv.Obj) → lv.upgrade s' o ≡ lv.upgrade s o

-- A page covers the screen, so that it is visible unless it is hidden. An object has one parent, and
-- the screen has none.
pub record LvglLaws (lv : Lvgl) : Type 0 where
  pub same_iff : (a b : lv.Obj) → (lv.same a b ≡ true) ↔ (a ≡ b)
  pub one_parent :
      (s : lv.Store) (o p q : lv.Obj) (i j : ℕ)
      → get_elem? (lv.children s p) i ≡ some o
      → get_elem? (lv.children s q) j ≡ some o
      → p ≡ q
  pub screen_top :
      (s : lv.Store) (p : lv.Obj) (i : ℕ) → get_elem? (lv.children s p) i ≢ some lv.screen
  pub set_hidden-SameTree :
      (o : lv.Obj) (b : Bool) (s : lv.Store) → SameTree lv s (lv.set_hidden o b s)
  pub is_visible-set_hidden :
      (o q : lv.Obj) (b : Bool) (s : lv.Store)
      → IsPage lv s o
      → IsPage lv s q
      → lv.is_visible (lv.set_hidden o b s) q ≡ (if lv.same o q then not b else lv.is_visible s q)
  pub style-SameTree : (t : Style) (o : lv.Obj) (s : lv.Store) → SameTree lv s (lv.style t o s)
  pub is_visible-style :
      (t : Style) (o q : lv.Obj) (s : lv.Store)
      → IsPage lv s q
      → lv.same o q ≡ false
      → lv.same o lv.screen ≡ false
      → lv.is_visible (lv.style t o s) q ≡ lv.is_visible s q
  pub upgrade-put :
      (o q : lv.Obj) (u : Upgrade) (s : lv.Store)
      → lv.upgrade (lv.put_upgrade o u s) q ≡ (if lv.same o q then u else lv.upgrade s q)
  pub put_upgrade-SameShape :
      (o : lv.Obj) (u : Upgrade) (s : lv.Store) → SameShape lv s (lv.put_upgrade o u s)
  pub is_visible-put :
      (o q : lv.Obj) (u : Upgrade) (s : lv.Store)
      → lv.is_visible (lv.put_upgrade o u s) q ≡ lv.is_visible s q

-- What building the tree relies on: a new object is none of those in the tree, it comes last among
-- its parent's children and has none itself; a new progress widget is as its constructor leaves it;
-- the other objects stay as they are. lv_obj_clean deletes the children.
pub record BuildLaws (lv : Lvgl) : Type 0 where
  pub fresh :
      (k : Kind) (p q r : lv.Obj) (s : lv.Store) (i : ℕ)
      → get_elem? (lv.children s r) i ≡ some q
      → lv.same (lv.create k p s).0 q ≡ false
  pub fresh_screen :
      (k : Kind) (p : lv.Obj) (s : lv.Store) → lv.same (lv.create k p s).0 lv.screen ≡ false
  pub children-create :
      (k : Kind) (p q : lv.Obj) (s : lv.Store)
      → lv.same (lv.create k p s).0 q ≡ false
      → lv.children (lv.create k p s).1 q
        ≡ (if lv.same p q then lv.children s q ++ ((lv.create k p s).0 ∷ []) else lv.children s q)
  pub parent-create :
      (k : Kind) (p : lv.Obj) (s : lv.Store)
      → lv.parent (lv.create k p s).1 (lv.create k p s).0 ≡ some p
  pub text-create :
      (k : Kind) (p q : lv.Obj) (s : lv.Store)
      → lv.same (lv.create k p s).0 q ≡ false
      → lv.text (lv.create k p s).1 q ≡ lv.text s q
  pub is_visible-create :
      (k : Kind) (p q : lv.Obj) (s : lv.Store)
      → IsPage lv s q
      → lv.is_visible (lv.create k p s).1 q ≡ lv.is_visible s q
  pub upgrade-create :
      (p : lv.Obj) (s : lv.Store)
      → lv.upgrade (lv.create upgrade_widget p s).1 (lv.create upgrade_widget p s).0
        ≡ constructed num
  pub is_upgrade-create :
      (p : lv.Obj) (s : lv.Store)
      → lv.is_upgrade (lv.create upgrade_widget p s).1 (lv.create upgrade_widget p s).0 ≡ true
  pub children-new :
      (k : Kind) (p : lv.Obj) (s : lv.Store)
      → lv.children (lv.create k p s).1 (lv.create k p s).0 ≡ []
  pub create_other :
      (k : Kind) (p q : lv.Obj) (s : lv.Store)
      → lv.same (lv.create k p s).0 q ≡ false
      → (lv.is_upgrade (lv.create k p s).1 q ≡ lv.is_upgrade s q)
        × (lv.upgrade (lv.create k p s).1 q ≡ lv.upgrade s q)
  pub upgrade-set_text :
      (o q : lv.Obj) (t : String) (s : lv.Store)
      → (lv.is_upgrade (lv.set_text o t s) q ≡ lv.is_upgrade s q)
        × (lv.upgrade (lv.set_text o t s) q ≡ lv.upgrade s q)
  pub upgrade-set_image :
      (o q : lv.Obj) (t : String) (s : lv.Store)
      → (lv.is_upgrade (lv.set_image o t s) q ≡ lv.is_upgrade s q)
        × (lv.upgrade (lv.set_image o t s) q ≡ lv.upgrade s q)
  pub children-set_text :
      (o q : lv.Obj) (t : String) (s : lv.Store)
      → lv.children (lv.set_text o t s) q ≡ lv.children s q
  pub text-set_text :
      (o q : lv.Obj) (t : String) (s : lv.Store)
      → lv.text (lv.set_text o t s) q ≡ (if lv.same o q then some t else lv.text s q)
  pub is_visible-set_text :
      (o q : lv.Obj) (t : String) (s : lv.Store)
      → lv.is_visible (lv.set_text o t s) q ≡ lv.is_visible s q
  pub children-set_image :
      (o q : lv.Obj) (t : String) (s : lv.Store)
      → lv.children (lv.set_image o t s) q ≡ lv.children s q
  pub text-set_image :
      (o q : lv.Obj) (t : String) (s : lv.Store)
      → lv.same o q ≡ false
      → lv.text (lv.set_image o t s) q ≡ lv.text s q
  pub is_visible-set_image :
      (o q : lv.Obj) (t : String) (s : lv.Store)
      → IsPage lv s q
      → lv.same o q ≡ false
      → lv.is_visible (lv.set_image o t s) q ≡ lv.is_visible s q
  pub children-clean : (o : lv.Obj) (s : lv.Store) → lv.children (lv.clean o s) o ≡ []
