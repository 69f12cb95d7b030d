-- ===== src/Capture/X11/Windows.antt =====
-- The search of LinuxX11Capture.cpp for the client's own window. A window is what Xlib tells of it; a
-- position and a size are the bit patterns of an `int`. Nothing calls the search any more.
use remote_access_platform.Prelude.{
  ℕ, ◌^◌, ◌≡◌, refl, sym, ap, ap₂, ◌∙◌, List, [], ◌∷◌, ◌++◌, Bool, true, false, ◌&&◌, not, Option,
  none, some, ltb, is_empty, if◌then◌else◌, arith,
}
use remote_access_platform.Qt.{Text}

-- The answers of `XFetchName`, of the property _NET_WM_NAME, of `XGetWindowAttributes` and of
-- `XTranslateCoordinates`.
pub record WindowInfo : Type 0 where
  pub fetched_name : Option Text
  pub net_wm_name : Option Text
  -- width and height
  pub attributes : Option (ℕ × ℕ)
  pub root_x : ℕ
  pub root_y : ℕ

mutual
  pub data Window : Type 0 where
    window : WindowInfo → Windows → Window

  -- The children that `XQueryTree` lists.
  pub data Windows : Type 0 where
    no_window : Windows
    next_window : Window → Windows → Windows

pub record WindowBounds : Type 0 where
  pub x : ℕ
  pub y : ℕ
  pub width : ℕ
  pub height : ℕ
  pub is_active : Bool

unfoldable pub get_window_title : WindowInfo → Text
get_window_title info = elim info.fetched_name [
  | some title ↦ title
  | none ↦ elim info.net_wm_name [ some title ↦ title | none ↦ [] ]
]

-- Above 100, as a signed number.
abbrev pub is_large : ℕ → Bool
is_large v = ltb 100 v && ltb v (2 ^ 31)

-- The bounds of a window that is the client's. `is_title` is whether a text has "Remote Access Platform".
unfoldable pub bounds_of : (Text → Bool) → WindowInfo → Option WindowBounds
bounds_of is_title info =
    let title = get_window_title info in
    if not (is_empty title) && is_title title
    then (elim info.attributes [
      | none ↦ none
      | some (width, height) ↦
          if is_large width && is_large height
          then some (record {
            x = info.root_x;
            y = info.root_y;
            width = width;
            height = height;
            is_active = true;
          })
          else none
    ])
    else none

abbrev pub or_else : Option WindowBounds → Option WindowBounds → Option WindowBounds
or_else none other = other
or_else (some bounds) other = some bounds

module _ (is_title : Text → Bool) where
  unfoldable mutual
    -- The window itself, and then its children, one after the other.
    pub search_client_window : Window → Option WindowBounds
    search_client_window (window info children) =
        or_else (bounds_of is_title info) (search_children children)

    pub search_children : Windows → Option WindowBounds
    search_children no_window = none
    search_children (next_window w ws) = or_else (search_client_window w) (search_children ws)

abbrev pub no_bounds : WindowBounds
no_bounds = record { x = 0; y = 0; width = 0; height = 0; is_active = false }

abbrev pub bounds_or : WindowBounds → Option WindowBounds → WindowBounds
bounds_or otherwise none = otherwise
bounds_or otherwise (some bounds) = bounds

-- `none` is no display, or no root window.
unfoldable pub find_client_window_bounds : (Text → Bool) → Option Window → WindowBounds
find_client_window_bounds is_title none = no_bounds
find_client_window_bounds is_title (some root) =
    bounds_or no_bounds (search_client_window is_title root)

-- The windows of a tree, each before its children.
unfoldable mutual
  pub tree_of : Window → List WindowInfo
  tree_of (window info children) = info ∷ trees_of children

  pub trees_of : Windows → List WindowInfo
  trees_of no_window = []
  trees_of (next_window w ws) = tree_of w ++ trees_of ws

module _ (is_title : Text → Bool) where
  -- The bounds of the first window of a list that has any.
  abbrev pub first_bounds : List WindowInfo → Option WindowBounds
  first_bounds [] = none
  first_bounds (info ∷ infos) = or_else (bounds_of is_title info) (first_bounds infos)

  first_bounds-append :
      (xs ys : List WindowInfo)
      → first_bounds (xs ++ ys) ≡ or_else (first_bounds xs) (first_bounds ys)
  first_bounds-append [] ys = refl
  first_bounds-append (x ∷ xs) ys = ground (arith, first_bounds-append xs ys)

  -- The search finds the first of the client's windows in the tree, a window before its children.
  mutual
    unfolding search_client_window search_children tree_of trees_of

    search_client_window-first_bounds :
        (w : Window) → search_client_window is_title w ≡ first_bounds (tree_of w)
    search_client_window-first_bounds (window info children) =
        ap (or_else (bounds_of is_title info)) (search_children-first_bounds children)

    search_children-first_bounds :
        (ws : Windows) → search_children is_title ws ≡ first_bounds (trees_of ws)
    search_children-first_bounds no_window = refl
    search_children-first_bounds (next_window w ws) =
        ap₂ or_else (search_client_window-first_bounds w) (search_children-first_bounds ws)
        ∙ sym (first_bounds-append (tree_of w) (trees_of ws))
