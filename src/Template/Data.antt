-- ===== src/Template/Data.antt =====
-- `TemplateData` of config/template.rs.
use glidesh.Common.{String, List, []}
use glidesh.Common.Dict.{Dict}

pub record TemplateData : Type 0 where
  pub collections : Dict (List (Dict String))
  pub extra_vars : Dict String

-- `EMPTY_TEMPLATE_DATA`
abbrev pub empty_template_data : TemplateData
empty_template_data = record { collections = []; extra_vars = [] }
