-- ===== src/Examples/Markup.antt =====
-- Pages that the scraper reads.
use background_job_runner.Prelude.{◌≡◌, refl, ◌++◌, none, some, Text, text_eq, codes}
use background_job_runner.Workers.HtmlExtract.Titles.{escape, title-escape}
use background_job_runner.Workers.HtmlExtract.{
  extract_page, clean, meta_content, count_words, content, decode, strip_tags, entity_in,
  content_of, attribute, attribute_from, last_href, page_text,
}
use background_job_runner.Prelude.Patterns.{match_all, before, collapse_from, replace}
use background_job_runner.Prelude.Texts.{split}

abbrev sample_page : Text
sample_page =
    codes
      "<!-- <title>no</title> --><TITLE lang='en'> Tom &amp;amp; <b>Jerry</b>  </Title><meta content=\"A  cat\" name=Description><a data-x=1 href = '/x'>one</a> two<script>var x = 1 < 2;</script><a hrefs>three</a><a href=y>"

sample_summary : extract_page sample_page ≡ record {
  title = some (codes "no");
  description = some (codes "A cat");
  h1 = none;
  links = 2;
  words = 6;
}
unfolding extract_page clean meta_content match_all count_words content before collapse_from decode
    replace strip_tags entity_in content_of attribute attribute_from text_eq last_href split
    page_text
sample_summary = refl

abbrev titled_page : Text
titled_page =
    codes "intro "
    ++ (codes "<title>" ++ (escape (codes "Tom & \"J\"") ++ (codes "</title>" ++ codes "<p>")))

title-escape_example : (extract_page titled_page).title ≡ some (codes "Tom & \"J\"")
title-escape_example = title-escape (codes "intro ") (codes "Tom & \"J\"") (codes "<p>") refl refl
