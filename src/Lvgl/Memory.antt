-- ===== src/Lvgl/Memory.antt =====
-- A display in memory: the interface of Lvgl.antt can be met.
use openvela_frameworks_syst.Prelude.{
  ℕ, suc, ◌<◌, ◌≡◌, ◌⊎◌, inl, inr, refl, ap, sym, ◌∙◌, Bool, true, false, not, Option, none, some,
  String, List, [], ◌∷◌, ◌++◌, arith, get_elem?, get_elem?-append_one, ◌==◌, ==_iff, Bool-cases,
  then_at, else_at, if◌then◌else◌,
}
use openvela_frameworks_syst.Widget.{Upgrade, num, constructed}
use openvela_frameworks_syst.Lvgl.{Lvgl, LvglLaws, BuildLaws, Kind, upgrade_widget}

abbrev is_widget : Kind → Bool
is_widget upgrade_widget = true
is_widget _ = false

-- Objects are numbered from the screen, 0, on. Each child has its parent, and a number that is given.
pub record Tree : Type 0 where
  pub next : ℕ
  pub kids : ℕ → List ℕ
  pub up : ℕ → Option ℕ
  pub texts : ℕ → Option String
  pub hidden : ℕ → Bool
  pub widgets : ℕ → Bool
  pub upgrades : ℕ → Upgrade
  pub positive : 0 < next
  pub bounded : (p i q : ℕ) → get_elem? (kids p) i ≡ some q → (0 < q) × (q < next)
  pub parents : (p i q : ℕ) → get_elem? (kids p) i ≡ some q → up q ≡ some p

unfoldable pub update : {A : Type 0} → ℕ → A → (ℕ → A) → ℕ → A
update n v f m = if m == n then v else f m

unfoldable pub grown : Tree → ℕ → ℕ → List ℕ
unfolding update
grown t p q = if q == t.next then [] else if q == p then t.kids q ++ (t.next ∷ []) else t.kids q

pub grown-cases :
    (t : Tree) (p q i x : ℕ)
    → get_elem? (grown t p q) i ≡ some x
    → (get_elem? (t.kids q) i ≡ some x) ⊎ ((x ≡ t.next) × (q ≡ p))
unfolding grown
grown-cases t p q i x e = elim (Bool-cases (q == t.next)) [
  | inl new ↦ absurd (cc (rw new at e))
  | inr old ↦ elim (Bool-cases (q == p)) [
    | inl here ↦ elim (get_elem?-append_one (t.kids q) t.next i x (rw old at (rw here at e))) [
      | inl before ↦ inl before
      | inr last ↦ inr (last, (==_iff q p).0 here)
    ]
    | inr other ↦ inl (rw old at (rw other at e))
  ]
]

pub kept_kid :
    (kids : ℕ → List ℕ) (o p i q : ℕ)
    → get_elem? (update o [] kids p) i ≡ some q
    → get_elem? (kids p) i ≡ some q
unfolding update
kept_kid kids o p i q e = elim (Bool-cases (p == o)) [
  | inl here ↦ absurd (cc (rw here at e))
  | inr other ↦ rw other at e
]

grow : Kind → ℕ → Tree → ℕ × Tree
unfolding update
grow k p t = (
  t.next,
  record {
    next = suc t.next;
    kids = grown t p;
    up = update t.next (some p) t.up;
    texts = update t.next none t.texts;
    hidden = update t.next false t.hidden;
    widgets = update t.next (is_widget k) t.widgets;
    upgrades = update t.next (constructed num) t.upgrades;
    positive = omega arith;
    bounded = λ q i x e. elim (grown-cases t p q i x e) [
      | inl old ↦ let (above, below) = t.bounded q i x old in omega arith
      | inr (new, at) ↦ let first : 0 < t.next = t.positive in omega (arith, new)
    ];
    parents = λ q i x e. elim (grown-cases t p q i x e) [
      | inl old ↦
          let (above, below) = t.bounded q i x old in
          let older : (x == t.next) ≡ false = ground arith in rw older (t.parents q i x old)
      | inr (new, at) ↦ let newest : (x == t.next) ≡ true = ground (arith, new) in rw newest (rw at)
    ];
  },
)

unfoldable pub memory : Lvgl
unfolding grow update grown
memory = record {
  Store = Tree;
  Obj = ℕ;
  same = λ a b. a == b;
  screen = 0;
  children = λ t o. t.kids o;
  parent = λ t o. t.up o;
  text = λ t o. t.texts o;
  is_upgrade = λ t o. t.widgets o;
  is_visible = λ t o. not (t.hidden o);
  upgrade = λ t o. t.upgrades o;
  set_hidden = λ o b t. record t { hidden = update o b t.hidden };
  set_text = λ o s t. record t { texts = update o (some s) t.texts };
  set_image = λ o s t. record t { texts = update o none t.texts };
  style = λ s o t. t;
  put_upgrade = λ o u t. record t { upgrades = update o u t.upgrades };
  create = grow;
  clean = λ o t. record t {
    kids = update o [] t.kids;
    bounded = λ p i q e. t.bounded p i q (kept_kid t.kids o p i q e);
    parents = λ p i q e. t.parents p i q (kept_kid t.kids o p i q e);
  };
}

==_comm : (a b : ℕ) → (a == b) ≡ (b == a)
==_comm a b = ground arith

update_lem :
    {A : Type 0} (o : ℕ) (v : A) (f : ℕ → A) (q : ℕ) → update o v f q ≡ (if o == q then v else f q)
unfolding update
update_lem o v f q = ap (λ b. if b then v else f q) (==_comm q o)

update_self : {A : Type 0} (o : ℕ) (v : A) (f : ℕ → A) → update o v f o ≡ v
update_self o v f = update_lem o v f o ∙ then_at ((==_iff o o).1 refl) _ _

update_other :
    {A : Type 0} (o : ℕ) (v : A) (f : ℕ → A) (q : ℕ) → (o == q) ≡ false → update o v f q ≡ f q
update_other o v f q other = update_lem o v f q ∙ else_at other _ _

hidden_lem :
    (o q : ℕ) (b : Bool) (f : ℕ → Bool)
    → not (update o b f q) ≡ (if o == q then not b else not (f q))
hidden_lem o q b f = elim (Bool-cases (o == q)) [
  | inl e ↦ ap not (update_lem o b f q ∙ then_at e _ _) ∙ sym (then_at e _ _)
  | inr e ↦ ap not (update_other o b f q e) ∙ sym (else_at e _ _)
]

grown_lem :
    (t : Tree) (p q : ℕ)
    → (t.next == q) ≡ false
    → grown t p q ≡ (if p == q then t.kids q ++ (t.next ∷ []) else t.kids q)
unfolding grown
grown_lem t p q other =
    else_at (==_comm q t.next ∙ other) _ _
    ∙ ap (λ b. if b then t.kids q ++ (t.next ∷ []) else t.kids q) (==_comm q p)

pub memory-laws : LvglLaws memory
unfolding memory
memory-laws = record {
  same_iff = λ a b. ==_iff a b;
  one_parent = λ t o p q i j e f. cc (t.parents p i o e, t.parents q j o f);
  screen_top = λ t p i e. let (above, below) = t.bounded p i 0 e in absurd (omega arith);
  set_hidden-SameTree = λ o b t. record {
    shape = record {
      children = λ x. refl;
      parent = λ x. refl;
      text = λ x. refl;
      is_upgrade = λ x. refl;
    };
    upgrade = λ x. refl;
  };
  is_visible-set_hidden = λ o q b t here there. hidden_lem o q b t.hidden;
  style-SameTree = λ s o t. record {
    shape = record {
      children = λ x. refl;
      parent = λ x. refl;
      text = λ x. refl;
      is_upgrade = λ x. refl;
    };
    upgrade = λ x. refl;
  };
  is_visible-style = λ s o q t here other top. refl;
  upgrade-put = λ o q u t. update_lem o u t.upgrades q;
  put_upgrade-SameShape = λ o u t. record {
    children = λ x. refl;
    parent = λ x. refl;
    text = λ x. refl;
    is_upgrade = λ x. refl;
  };
  is_visible-put = λ o q u t. refl;
}

pub memory-builds : BuildLaws memory
unfolding memory grown
memory-builds = record {
  fresh = λ k p q r t i e. let (above, below) = t.bounded r i q e in ground arith;
  fresh_screen = λ k p t. let first : 0 < t.next = t.positive in ground arith;
  children-create = λ k p q t other. grown_lem t p q other;
  parent-create = λ k p t. update_self t.next (some p) t.up;
  text-create = λ k p q t other. update_other t.next none t.texts q other;
  is_visible-create = λ k p q t (i, e).
      let (above, below) = t.bounded 0 i q e in
      ap not (update_other t.next false t.hidden q (ground arith));
  upgrade-create = λ p t. update_self t.next (constructed num) t.upgrades;
  is_upgrade-create = λ p t. update_self t.next true t.widgets;
  children-new = λ k p t. then_at ((==_iff t.next t.next).1 refl) _ _;
  create_other = λ k p q t other. (
    update_other t.next (is_widget k) t.widgets q other,
    update_other t.next (constructed num) t.upgrades q other,
  );
  upgrade-set_text = λ o q s t. (refl, refl);
  upgrade-set_image = λ o q s t. (refl, refl);
  children-set_text = λ o q s t. refl;
  text-set_text = λ o q s t. update_lem o (some s) t.texts q;
  is_visible-set_text = λ o q s t. refl;
  children-set_image = λ o q s t. refl;
  text-set_image = λ o q s t other. update_other o none t.texts q other;
  is_visible-set_image = λ o q s t here other. refl;
  children-clean = λ o t. update_self o [] t.kids;
}
