-- ===== src/Store/Blog.antt =====
-- go/internal/store/blog.go: blog posts.
pub mod Slugs
use mlops.Base.{
  ℕ, String, Bool, true, false, List, [], ◌∷◌, Option, none, some, ◌==◌, ◌||◌, ◌&&◌, not, any, ltb,
  if◌then◌else◌,
}
use mlops.Base.First.{find_first, update_first, remove_first}
use mlops.Base.Slug.{slug}
use mlops.Base.Text.{is_empty, trim_space, byte_length}
use mlops.Api.Value.{Time, text}
use mlops.Api.Project.{BlogPost, UpsertBlogPostRequest}
use mlops.Store.{
  State, Outcome, refused, returned, not_found, conflict, message, Clock, id, record_event,
}
use mlops.Store.Access.{unique}

-- The first five lines of `validateBlog`, and its defaults.
unfoldable pub normalise_blog : (String → String) → UpsertBlogPostRequest → UpsertBlogPostRequest
normalise_blog to_lower raw =
    let title = trim_space raw.title in
    let given = slug to_lower raw.slug in
    let author = trim_space raw.author in
    record {
      slug = if is_empty given then slug to_lower title else given;
      title = title;
      summary = trim_space raw.summary;
      content = trim_space raw.content;
      author = if is_empty author then "Nexus Engineering" else author;
      tags = unique raw.tags;
      status = if is_empty raw.status then "draft" else raw.status;
    }

-- `validateBlog`. `to_lower` stands for `strings.ToLower`.
unfoldable pub validate_blog :
    (String → String) → UpsertBlogPostRequest → Outcome UpsertBlogPostRequest
validate_blog to_lower raw =
    let req = normalise_blog to_lower raw in
    if ltb (byte_length req.title) 5
      || ltb (byte_length req.summary) 20
      || ltb (byte_length req.content) 100
    then refused (message "title, summary, and substantial content are required")
    else if not (req.status == "draft") && not (req.status == "published")
    then refused (message "status must be draft or published")
    else returned req

-- `BlogPost`
unfoldable pub blog_post : String → State → Outcome BlogPost
blog_post identifier s =
    elim (find_first (λ post. post.id == identifier || post.slug == identifier) s.blog_posts) [
      | none ↦ refused not_found
      | some found ↦ returned found
    ]

abbrev pub is_post : String → BlogPost → Bool
is_post post_id post = post.id == post_id

-- What `UpsertBlogPost` does to the post that it finds.
unfoldable pub rewrite_post : Time → UpsertBlogPostRequest → BlogPost → BlogPost
rewrite_post now req post = record post {
  slug = req.slug;
  title = req.title;
  summary = req.summary;
  content = req.content;
  author = req.author;
  tags = req.tags;
  status = req.status;
  updated_at = now;
  published_at =
      if req.status == "published"
      then elim post.published_at [ none ↦ some now | some t ↦ some t ]
      else post.published_at;
}

-- The post that `UpsertBlogPost` makes.
unfoldable pub new_post : Clock → UpsertBlogPostRequest → BlogPost
new_post clock req = record {
  id = id "blog" (clock 1);
  slug = req.slug;
  title = req.title;
  summary = req.summary;
  content = req.content;
  author = req.author;
  tags = req.tags;
  status = req.status;
  created_at = clock 0;
  updated_at = clock 0;
  published_at = if req.status == "published" then some (clock 0) else none;
}

abbrev pub takes_slug : String → String → BlogPost → Bool
takes_slug wanted post_id post = post.slug == wanted && not (post.id == post_id)

-- `UpsertBlogPost`
unfoldable pub upsert_blog_post :
    (String → String)
    → Clock
    → String
    → UpsertBlogPostRequest
    → String
    → State
    → State × Outcome BlogPost
upsert_blog_post to_lower clock post_id raw actor s = elim (validate_blog to_lower raw) [
  | refused e ↦ (s, refused e)
  | returned req ↦
      if any (takes_slug req.slug post_id) s.blog_posts
      then (s, refused conflict)
      else elim (find_first (is_post post_id) s.blog_posts) [
        | some found ↦
            let change = rewrite_post (clock 0) req in
            (
              record_event (clock 1) (clock 2) "blog.updated" "blog_post" found.id actor
                  (("status", text req.status) ∷ [])
                  (record s { blog_posts = update_first (is_post post_id) change s.blog_posts }),
              returned (change found),
            )
        | none ↦
            let post = new_post clock req in
            (
              record_event (clock 2) (clock 3) "blog.created" "blog_post" post.id actor
                  (("status", text req.status) ∷ [])
                  (record s { blog_posts = post ∷ s.blog_posts }),
              returned post,
            )
      ]
]

-- `DeleteBlogPost`
unfoldable pub delete_blog_post : Clock → String → String → State → State × Outcome (Unit {0})
delete_blog_post clock post_id actor s = elim (find_first (is_post post_id) s.blog_posts) [
  | none ↦ (s, refused not_found)
  | some _ ↦ (
    record_event (clock 0) (clock 1) "blog.deleted" "blog_post" post_id actor []
        (record s { blog_posts = remove_first (is_post post_id) s.blog_posts }),
    returned tt,
  )
]
