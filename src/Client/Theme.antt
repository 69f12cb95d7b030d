-- ===== src/Client/Theme.antt =====
-- apps/client/src/theme/ThemeManager.cpp: the colours of the client. A `QColor` is its RGB value.
use remote_access_platform.Prelude.{ℕ, ◌+◌, ◌≡◌, refl, ◌==◌, if◌then◌else◌}
use remote_access_platform.Qt.{Text, literal}

pub record Palette : Type 0 where
  pub current_theme_name : Text
  pub background : ℕ
  pub surface : ℕ
  pub surface_variant : ℕ
  pub border : ℕ
  pub primary : ℕ
  pub accent : ℕ
  pub text_primary : ℕ
  pub text_secondary : ℕ
  pub error : ℕ
  pub success : ℕ
  pub warning : ℕ

pub record ThemeManager : Type 0 where
  pub current_theme : ℕ
  pub palette : Palette
  -- how often `themeChanged` was emitted
  pub changes : ℕ

abbrev pub tokyo_night : Palette
tokyo_night = record {
  current_theme_name = literal "Tokyo Night";
  background = 0x1A1B26;
  surface = 0x24283B;
  surface_variant = 0x414868;
  border = 0x565F89;
  primary = 0x7AA2F7;
  accent = 0xBB9AF7;
  text_primary = 0xC0CAF5;
  text_secondary = 0x9AA5CE;
  error = 0xF7768E;
  success = 0x9ECE6A;
  warning = 0xE0AF68;
}

abbrev pub nordic_frost : Palette
nordic_frost = record {
  current_theme_name = literal "Nordic Frost";
  background = 0x2E3440;
  surface = 0x3B4252;
  surface_variant = 0x434C5E;
  border = 0x4C566A;
  primary = 0x88C0D0;
  accent = 0x81A1C1;
  text_primary = 0xECEFF4;
  text_secondary = 0xD8DEE9;
  error = 0xBF616A;
  success = 0xA3BE8C;
  warning = 0xEBCB8B;
}

abbrev pub github_dark : Palette
github_dark = record {
  current_theme_name = literal "GitHub Dark";
  background = 0x0D1117;
  surface = 0x161B22;
  surface_variant = 0x21262D;
  border = 0x30363D;
  primary = 0x58A6FF;
  accent = 0xBC8CFF;
  text_primary = 0xC9D1D9;
  text_secondary = 0x8B949E;
  error = 0xF85149;
  success = 0x3FB950;
  warning = 0xD29922;
}

abbrev pub enterprise_light : Palette
enterprise_light = record {
  current_theme_name = literal "Enterprise Light";
  background = 0xF8F9FA;
  surface = 0xFFFFFF;
  surface_variant = 0xE9ECEF;
  border = 0xCED4DA;
  primary = 0x0D6EFD;
  accent = 0x6F42C1;
  text_primary = 0x212529;
  text_secondary = 0x6C757D;
  error = 0xDC3545;
  success = 0x198754;
  warning = 0xFFC107;
}

abbrev pub catppuccin_dark : Palette
catppuccin_dark = record {
  current_theme_name = literal "Catppuccin Dark";
  background = 0x181825;
  surface = 0x1E1E2E;
  surface_variant = 0x313244;
  border = 0x45475A;
  primary = 0x89B4FA;
  accent = 0xCBA6F7;
  text_primary = 0xCDD6F4;
  text_secondary = 0xA6ADC8;
  error = 0xF38BA8;
  success = 0xA6E3A1;
  warning = 0xF9E2AF;
}

abbrev pub palette_of : ℕ → Palette
palette_of mode =
    if mode == 1
    then tokyo_night
    else if mode == 2
    then nordic_frost
    else if mode == 3
    then github_dark
    else if mode == 4
    then enterprise_light
    else catppuccin_dark

-- A mode is the bit pattern of an `int`.
unfoldable pub set_theme : ℕ → ThemeManager → ThemeManager
set_theme mode t = record t {
  current_theme = mode;
  palette = palette_of mode;
  changes = t.changes + 1;
}

-- `lighter` is `QColor::lighter(120)`.
unfoldable pub set_custom_accent_color : (ℕ → ℕ) → ℕ → ThemeManager → ThemeManager
set_custom_accent_color lighter color t = record t {
  palette = record t.palette { primary = color; accent = lighter color };
  changes = t.changes + 1;
}

-- Choosing a theme drops an accent that was set before it, in every member of the palette.
set_theme-set_custom_accent_color :
    (lighter : ℕ → ℕ) (color mode : ℕ) (t : ThemeManager)
    → (set_theme mode (set_custom_accent_color lighter color t)).palette
      ≡ (set_theme mode t).palette
unfolding set_theme
set_theme-set_custom_accent_color lighter color mode t = refl
