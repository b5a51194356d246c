-- ===== src/Cloud/Feed.antt =====
-- lib/CloudSync: remote releases, from a sync and from the feed.
use rfid_access.Base.{
  ℕ, ◌+◌, Bool, true, false, not, ◌&&◌, ◌||◌, [], Option, none, some, ltb, ◌==◌, if◌then◌else◌,
  Text, eq_text, is_empty,
}
use rfid_access.Cloud.{CloudSync, server_now, request_sync_now}

-- considerRelease: the state, and whether the release handler is called.
unfoldable pub consider_release : CloudSync → Text → ℕ → ℕ → CloudSync × Bool
unfolding server_now request_sync_now
consider_release c id exp ms =
    let now = server_now c ms in
    if is_empty id || eq_text id c.release_id || eq_text id c.lapsed_release_id
    then (c, false)
    else if now == 0 || ltb exp now
    then (record c { lapsed_release_id = id }, false)
    else (
      request_sync_now (record c { release_id = id; stored = record c.stored { release_id = id } }),
      true,
    )

-- What the HTTP client answers to one poll: the connection cannot be opened, or a status with the
-- header and, where the body is JSON, its id and expiry.
pub data FeedReply : Type 0 where
  unreachable : FeedReply
  answer : ℕ → Text → Option (Text × ℕ) → FeedReply

unfoldable pub close_feed : CloudSync → CloudSync
close_feed c = record c { feed_open = false }

-- The release of a poll's body, if it is JSON.
unfoldable pub consider_body : CloudSync → Option (Text × ℕ) → ℕ → CloudSync × Bool
unfolding consider_release
consider_body c none ms = (c, false)
consider_body c (some (id, exp)) ms = consider_release c id exp ms

unfoldable pub on_reply : CloudSync → FeedReply → ℕ → CloudSync × Bool
unfolding consider_body close_feed
on_reply c unreachable ms = (record (close_feed c) { feed_failures = (c.feed_failures + 1) }, false)
on_reply c (answer rc etag body) ms =
    let (c', acted) = consider_body c body ms in
    if (rc == 304) || (rc == 404)
    then (record c { feed_failures = 0 }, false)
    else if rc == 200
    then (record c' { feed_etag = etag; feed_failures = 0 }, acted)
    else if rc == 403
    then (record (close_feed c) { feed_url = [] }, false)
    else (record (close_feed c) { feed_failures = (c.feed_failures + 1) }, false)

-- pollReleaseFeed: a feed that is not open needs free heap and a large enough block.
unfoldable pub poll_release_feed : CloudSync → ℕ → ℕ → FeedReply → ℕ → CloudSync × Bool
unfolding on_reply
poll_release_feed c free_heap block reply ms =
    if not c.feed_open && (ltb free_heap 100000 || ltb block 40000)
    then (c, false)
    else on_reply (record c { feed_open = true }) reply ms
