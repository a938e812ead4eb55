-- ===== src/Man/Shown.antt =====
-- What wman prints.
use cs537_operating_system_u.Base.{ℕ, List}
use cs537_operating_system_u.Man.{file_path, section_path}

-- The file of a page in a section.
abbrev pub page_file : ℕ → List ℕ → List ℕ
page_file i file_name = file_path (section_path i) file_name
