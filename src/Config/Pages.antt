-- ===== src/Config/Pages.antt =====
-- The pages that ui/ui_config_parse.c leaves on the screen.
use text.Mathlib.Text.{◌==◌}
use mathlib.Core.List.{map-append}
use openvela_frameworks_syst.Prelude.{
  ℕ, suc, ◌≡◌, inl, inr, refl, sym, ◌∙◌, ap, Bool, true, false, ◌&&◌, ◌||◌, some, String, List, [],
  ◌∷◌, ◌++◌, map, get_elem?, get_elem?-append_one, if◌then◌else◌,
}
use openvela_frameworks_syst.Lvgl.{Lvgl, LvglLaws, BuildLaws, IsPage, SameTree, Style}
use openvela_frameworks_syst.Display.Tree.{SameTree-refl, SameTree-trans, IsPage-SameTree}
use openvela_frameworks_syst.Config.Names.{Input}
use openvela_frameworks_syst.Config.Kept.{Kept}
use openvela_frameworks_syst.Config.Check.{page_ok}

-- The members that are pages.
unfoldable pub page_names : (input : Input) → List input.Node → List String
page_names input [] = []
page_names input (n ∷ ns) =
    let rest = page_names input ns in
    if input.name n == "bg_color" then rest else input.name n ∷ rest

unfoldable pub pages_ok : (input : Input) → List input.Node → Bool
pages_ok input [] = true
pages_ok input (n ∷ ns) = (input.name n == "bg_color" || page_ok input n) && pages_ok input ns

map-agree :
    {A B : Type 0} (f g : A → B) (xs : List A)
    → ((i : ℕ) (x : A) → get_elem? xs i ≡ some x → f x ≡ g x)
    → map f xs ≡ map g xs
map-agree f g [] same = refl
map-agree f g (x ∷ xs) same =
    let head = same 0 x refl in
    let tail = map-agree f g xs (λ i y e. same (suc i) y e) in cc (head, tail)

module _ (lv : Lvgl) (laws : LvglLaws lv) (builds : BuildLaws lv) where
  open lv use {
    Store, Obj, screen, children, text, is_visible, same, style, create, set_hidden, set_text,
  }

  -- The pages have these names, in this order, and none is visible.
  pub record Loaded (names : List String) (s : Store) : Type 0 where
    pub texts : map (text s) (children s screen) ≡ map some names
    pub hidden : (q : Obj) → IsPage lv s q → is_visible s q ≡ false

  pub Kept-Loaded :
      (names : List String) (s s' : Store) → Kept lv s s' → Loaded names s → Loaded names s'
  Kept-Loaded names s s' kept loaded =
      let back : (q : Obj) → IsPage lv s' q → IsPage lv s q =
        λ q (i, e). (i, ap (λ l. get_elem? l i) (sym kept.kids) ∙ e) in
      record {
        texts =
            ap (map (text s')) kept.kids
            ∙ map-agree (text s') (text s) (children s screen) (λ i q e. kept.texts q (i, e))
            ∙ loaded.texts;
        hidden = λ q h. kept.seen q (back q h) ∙ loaded.hidden q (back q h);
      }

  -- Some calls on the look of one object.
  unfoldable pub styled : Obj → List Style → Store → Store
  styled o [] s = s
  styled o (t ∷ ts) s = styled o ts (style t o s)

  pub styled-SameTree : (o : Obj) (ts : List Style) (s : Store) → SameTree lv s (styled o ts s)
  unfolding styled
  styled-SameTree o [] s = SameTree-refl lv s
  styled-SameTree o (t ∷ ts) s =
      SameTree-trans lv s (style t o s) _ (laws.style-SameTree t o s)
        (styled-SameTree o ts (style t o s))

  pub is_visible-styled :
      (o q : Obj) (ts : List Style) (s : Store)
      → IsPage lv s q
      → same o q ≡ false
      → same o screen ≡ false
      → is_visible (styled o ts s) q ≡ is_visible s q
  unfolding styled
  is_visible-styled o q [] s page other top = refl
  is_visible-styled o q (t ∷ ts) s page other top =
      is_visible-styled o q ts (style t o s)
        (IsPage-SameTree lv s (style t o s) q (laws.style-SameTree t o s) page) other top
      ∙ laws.is_visible-style t o q s page other top

  -- A new page, with its name, after the others.
  pub record Added (name : String) (o : Obj) (s s' : Store) : Type 0 where
    pub kids : children s' screen ≡ children s screen ++ (o ∷ [])
    pub named : text s' o ≡ some name
    pub texts : (q : Obj) → IsPage lv s q → text s' q ≡ text s q
    pub dark : is_visible s' o ≡ false
    pub seen : (q : Obj) → IsPage lv s q → is_visible s' q ≡ is_visible s q
    pub no_screen : same o screen ≡ false

  pub Added-Loaded :
      (name : String) (names : List String) (o : Obj) (s s' : Store)
      → Added name o s s'
      → Loaded names s
      → Loaded (names ++ (name ∷ [])) s'
  Added-Loaded name names o s s' added loaded = record {
    texts =
        ap (map (text s')) added.kids
        ∙ map-append (text s') (children s screen) (o ∷ [])
        ∙ ap (λ l. l ++ (text s' o ∷ []))
            (map-agree (text s') (text s) (children s screen) (λ i q e. added.texts q (i, e))
              ∙ loaded.texts)
        ∙ ap (λ t. map some names ++ (t ∷ [])) added.named
        ∙ sym (map-append some names (name ∷ []));
    hidden = λ q (i, e).
        elim (get_elem?-append_one (children s screen) o i q
          (ap (λ l. get_elem? l i) (sym added.kids) ∙ e)) [
            | inl before ↦ added.seen q (i, before) ∙ loaded.hidden q (i, before)
            | inr last ↦ ap (is_visible s') last ∙ added.dark
          ];
  }
